-- ===== src/Services/Accounts.antt =====
-- acme_api/services/certificate_utilities.py, and the look-ups of configured accounts and
-- providers in acme_api/services/certificates.py.
use acme_api.Common.{
  String, List, [], ◌∷◌, Bool, not, ◌&&◌, ◌||◌, ltb, str_eq, any, length, if◌then◌else◌,
}
use acme_api.Common.Text.{starts_with, remove_prefix, ends_with}
use acme_api.Models.World.{Result, ok, err, lifecycle, deployment, index_error}
use acme_api.Ports.Settings.{AppSettings, AcmeAccountConfig, DnsProviderConfig}
use Prim.Native.String.{◌++◌}

unfoldable pub find_account : String → List AcmeAccountConfig → Result AcmeAccountConfig
find_account name [] = err (deployment ("ACME account not configured: " ++ name))
find_account name (a ∷ rest) = if str_eq a.name name then ok a else find_account name rest

unfoldable pub find_provider : String → List DnsProviderConfig → Result DnsProviderConfig
find_provider name [] = err (deployment ("DNS provider not configured: " ++ name))
find_provider name (p ∷ rest) = if str_eq p.name name then ok p else find_provider name rest

unfoldable pub acme_account : AppSettings → String → Result AcmeAccountConfig
unfolding find_account
acme_account settings name = find_account name settings.acme_accounts

unfoldable pub dns_provider : AppSettings → String → Result DnsProviderConfig
unfolding find_provider
dns_provider settings name = find_provider name settings.dns_providers

-- A name is outside the scope if it is neither the scope nor below it.
abbrev outside : String → String → Bool
outside scope domain =
    let bare = remove_prefix domain "*." in
    not (str_eq bare scope) && not (ends_with bare ("." ++ scope))

-- The base name of the first domain, and whether the record must cover names below it. An empty
-- list, which the schema refuses, has no first domain.
unfoldable pub dns_persist_scope : List String → Result (String × Bool)
dns_persist_scope [] = err index_error
dns_persist_scope (primary ∷ rest) =
    let scope = remove_prefix primary "*." in
    if any (outside scope) (primary ∷ rest)
    then err (
        lifecycle
          "DNS Persist SANs must be the primary domain or its subdomains; create separate requests for unrelated domains.")
    else ok (scope, ltb 1 (length (primary ∷ rest)) || starts_with primary "*.")

-- What `_issue_and_deploy` catches.
pub data IssueError : Type 0 where
  transient_error terminal_error deployment_error : String → IssueError

abbrev pub error_category : IssueError → String
error_category (transient_error _) = "transient"
error_category (terminal_error _) = "terminal"
error_category (deployment_error _) = "deployment"

-- `str(error)`
abbrev pub error_text : IssueError → String
error_text (transient_error m) = m
error_text (terminal_error m) = m
error_text (deployment_error m) = m
