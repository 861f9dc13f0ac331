-- ===== src/Services/ConfiguredTests.antt =====
-- The check of the settings at concrete settings.
use acme_api.Common.{String, none, some, [], ◌≡◌, refl, Bool, true, All}
use acme_api.Common.Text.{starts_with}
use acme_api.Models.World.{ok}
use acme_api.Ports.Settings.{DnsProviderConfig, AcmeAccountConfig, AppSettings}
use acme_api.Ports.Startup.{check}
use acme_api.Samples.{settings}
use acme_api.Services.Accounts.{acme_account, dns_provider}
use acme_api.Services.Configured.{checked_settings}

abbrev everywhere : String → Bool
everywhere path = true

settings_pass : check everywhere (λ s. s) settings ≡ none
unfolding check
settings_pass = refl

abbrev homeless : AppSettings
homeless = record settings { dns_providers = []; home_dir = "" }

home_missing :
    check (λ path. starts_with path "/") (λ s. s) homeless ≡ some "acme.home_dir '' does not exist"
unfolding check
home_missing = refl

checked_settings_example :
    (starts_with settings.database.url "sqlite" ≡ true)
    × (everywhere settings.deployment.directory ≡ true)
    × (everywhere settings.home_dir ≡ true)
    × All (λ (p : DnsProviderConfig). dns_provider settings p.name ≡ ok p) settings.dns_providers
    × All (λ (a : AcmeAccountConfig). acme_account settings a.name ≡ ok a) settings.acme_accounts
    × All (λ (p : DnsProviderConfig). everywhere p.env_vars_file_path ≡ true) settings.dns_providers
checked_settings_example = checked_settings everywhere (λ s. s) settings settings_pass
