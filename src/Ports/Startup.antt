-- ===== src/Ports/Startup.antt =====
-- `AppSettings.check` of acme_api/config.py.
use acme_api.Common.{
  String, Option, none, some, List, [], ◌∷◌, Bool, false, not, ◌||◌, contains, map, if◌then◌else◌,
}
use acme_api.Common.Text.{starts_with}
use acme_api.Ports.Settings.{DnsProviderConfig, AcmeAccountConfig, AppSettings}
use Prim.Native.String.{◌++◌}

-- `len(names) != len(set(names))`
abbrev pub has_duplicates : List String → Bool
has_duplicates [] = false
has_duplicates (name ∷ names) = contains name names || has_duplicates names

-- `if failed: errors.append(message)`, before the errors that come later.
abbrev pub report_if : Bool → String → List String → List String
report_if failed message later = if failed then message ∷ later else later

-- `"\n".join(errors)`
abbrev join_lines : List String → String
join_lines [] = ""
join_lines (x ∷ []) = x
join_lines (x ∷ y ∷ rest) = x ++ "\n" ++ join_lines (y ∷ rest)

-- The error that is raised where there are errors.
abbrev pub raised_if_any : List String → Option String
raised_if_any [] = none
raised_if_any (x ∷ xs) = some (join_lines (x ∷ xs))

-- `exists` tells which paths exist when the service starts.
module _ (exists : String → Bool) (repr : String → String) where
  abbrev pub missing_files : List DnsProviderConfig → List String
  missing_files [] = []
  missing_files (p ∷ rest) =
      report_if (not (exists p.env_vars_file_path))
        ("dns_provider '" ++ p.name ++ "': env_vars_file_path '" ++ p.env_vars_file_path
          ++ "' does not exist")
        (missing_files rest)

  abbrev pub startup_errors : AppSettings → List String
  startup_errors s =
      report_if (not (starts_with s.database.url "sqlite"))
        ("database.url must start with 'sqlite', got: " ++ repr s.database.url)
        (report_if (not (exists s.deployment.directory))
          ("deployment.directory '" ++ s.deployment.directory ++ "' does not exist")
          (report_if (not (exists s.home_dir))
            ("acme.home_dir '" ++ s.home_dir ++ "' does not exist")
            (report_if (has_duplicates (map (λ (p : DnsProviderConfig). p.name) s.dns_providers))
              "dns_providers contains duplicate 'name' values"
              (report_if (has_duplicates (map (λ (a : AcmeAccountConfig). a.name) s.acme_accounts))
                "acme_accounts contains duplicate 'name' values" (missing_files s.dns_providers)))))

  -- The message of the `ValueError`, or `none` where the check passes.
  unfoldable pub check : AppSettings → Option String
  check s = raised_if_any (startup_errors s)
