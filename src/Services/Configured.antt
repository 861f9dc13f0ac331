-- ===== src/Services/Configured.antt =====
-- What the check of the settings at the start (acme_api/config.py) gives to the look-ups of
-- acme_api/services/certificates.py.
use acme_api.Common.{
  String, none, List, [], ◌∷◌, ◌≡◌, refl, ◌∙◌, Bool, true, false, not, All, arith, contains, map,
  str_eq, eq_iff, if◌then◌else◌,
}
use acme_api.Common.Text.{starts_with}
use acme_api.Models.World.{Result, ok}
use acme_api.Ports.Settings.{DnsProviderConfig, AcmeAccountConfig, AppSettings}
use acme_api.Ports.Startup.{
  has_duplicates, report_if, raised_if_any, missing_files, startup_errors, check,
}
use acme_api.Services.Accounts.{find_account, find_provider, acme_account, dns_provider}

-- A search by name in a list of records.
module _ {A : Type 0} (name : A → String) (find : String → List A → Result A)
    (find-cons : (n : String) (x : A) (xs : List A)
      → find n (x ∷ xs) ≡ (if str_eq (name x) n then ok x else find n xs)) where
  -- A record of another name in front hides none of the others.
  find-behind :
      (x : A) (rest ys : List A)
      → contains (name x) (map name ys) ≡ false
      → All (λ y. find (name y) rest ≡ ok y) ys
      → All (λ y. find (name y) (x ∷ rest) ≡ ok y) ys
  find-behind x rest [] h k = tt
  find-behind x rest (y ∷ ys) h (e, k) = ground (
    arith,
    find-behind x rest ys,
    find-cons (name y) x rest,
    eq_iff (name x) (name y),
    eq_iff (name y) (name x),
  )

  find-distinct :
      (xs : List A) → has_duplicates (map name xs) ≡ false → All (λ x. find (name x) xs ≡ ok x) xs
  find-distinct [] h = tt
  find-distinct (x ∷ xs) h =
      let first : find (name x) (x ∷ xs) ≡ ok x =
        find-cons (name x) x xs ∙ rw ((eq_iff (name x) (name x)).1 refl) refl in
      (first, find-behind x xs xs (ground arith) (find-distinct xs (ground arith)))

report_if-empty :
    (failed : Bool) (message : String) (later : List String)
    → report_if failed message later ≡ []
    → (failed ≡ false) × (later ≡ [])
report_if-empty true message later h = ground arith
report_if-empty false message later h = (refl, h)

passes : (errors : List String) → raised_if_any errors ≡ none → errors ≡ []
passes [] h = refl
passes (x ∷ xs) h = ground arith

files_exist :
    (exists : String → Bool) (repr : String → String) (ps : List DnsProviderConfig)
    → missing_files exists repr ps ≡ []
    → All (λ (p : DnsProviderConfig). exists p.env_vars_file_path ≡ true) ps
files_exist exists repr [] h = tt
files_exist exists repr (p ∷ rest) h =
    let (a, b) =
      report_if-empty (not (exists p.env_vars_file_path)) _ (missing_files exists repr rest) h in
    (ground arith, files_exist exists repr rest b)

no_errors :
    (exists : String → Bool) (repr : String → String) (s : AppSettings)
    → startup_errors exists repr s ≡ []
    → (starts_with s.database.url "sqlite" ≡ true)
      × (exists s.deployment.directory ≡ true)
      × (exists s.home_dir ≡ true)
      × (has_duplicates (map (λ (p : DnsProviderConfig). p.name) s.dns_providers) ≡ false)
      × (has_duplicates (map (λ (a : AcmeAccountConfig). a.name) s.acme_accounts) ≡ false)
      × (missing_files exists repr s.dns_providers ≡ [])
no_errors exists repr s h = ground arith

-- Settings that pass the check name an SQLite database and directories that exist, and the service
-- finds each provider and each account that they list under its own name, and the credentials file
-- of each provider exists.
pub checked_settings :
    (exists : String → Bool) (repr : String → String) (s : AppSettings)
    → check exists repr s ≡ none
    → (starts_with s.database.url "sqlite" ≡ true)
      × (exists s.deployment.directory ≡ true)
      × (exists s.home_dir ≡ true)
      × All (λ (p : DnsProviderConfig). dns_provider s p.name ≡ ok p) s.dns_providers
      × All (λ (a : AcmeAccountConfig). acme_account s a.name ≡ ok a) s.acme_accounts
      × All (λ (p : DnsProviderConfig). exists p.env_vars_file_path ≡ true) s.dns_providers
unfolding check dns_provider acme_account find_provider find_account
checked_settings exists repr s h =
    let (database, directory, home, providers, accounts, files) =
      no_errors exists repr s (passes (startup_errors exists repr s) h) in
    (
      database,
      directory,
      home,
      find-distinct (λ (p : DnsProviderConfig). p.name) find_provider (λ n x xs. refl)
          s.dns_providers providers,
      find-distinct (λ (a : AcmeAccountConfig). a.name) find_account (λ n x xs. refl)
          s.acme_accounts accounts,
      files_exist exists repr s.dns_providers files,
    )
