-- ===== src/Acmesh/Tests.antt =====
-- The theorems about command lines and environments at concrete inputs.
use acme_api.Common.{Option, none, String, some, List, [], ◌∷◌, ◌≡◌, refl, true}
use acme_api.Ports.Backend.{IssueRequest, dns_01_params}
use acme_api.Common.Dict.{Dict, lookup}
use acme_api.Acmesh.Arguments.{issue_args, persist_value_args}
use acme_api.Acmesh.Environment.{load_env_vars, run_environment}
use acme_api.Acmesh.Protected.{IsAllowed, environment_protected}
use acme_api.Acmesh.Domains.{read_domains, issue_domains}
use acme_api.Acmesh.Exits.{classify_exit, account_invalid}

abbrev request : IssueRequest
request = record {
  domains = "example.org" ∷ "www.example.org" ∷ [];
  key_algorithm = "rsa-4096";
  challenge = dns_01_params "dns_cf" "/dns.env";
  account_key_path = some "/main.key";
  server_url = "https://acme.example";
}

abbrev line : List String
line =
    "--issue" ∷ "--domain" ∷ "example.org" ∷ "--domain" ∷ "www.example.org" ∷ "--keylength" ∷ "4096"
    ∷ "--server" ∷ "https://acme.example" ∷ "--dns" ∷ "dns_cf" ∷ "--dnssleep" ∷ "30"
    ∷ "--accountkey-file" ∷ "/main.key" ∷ []

issue_domains_example : read_domains line ≡ "example.org" ∷ "www.example.org" ∷ []
unfolding issue_args
issue_domains_example = issue_domains (some 30) request line refl

-- A terminal token takes precedence over the exit code.
terminal_exit : classify_exit 75 "server returned 403" "" ≡ account_invalid
unfolding classify_exit
terminal_exit = refl

persist_line :
    persist_value_args "example.org" true none (some "https://acme.example")
    ≡ "--make-dns-persist-value" ∷ "--domain" ∷ "example.org" ∷ "--dns-persist-wildcard"
      ∷ "--server" ∷ "https://acme.example" ∷ []
unfolding persist_value_args
persist_line = refl

abbrev read_word : String → Option String
read_word s = some s

abbrev credentials : String
credentials = "# dns\nexport CF_Key = abc\r\nPath=/tmp\n1X=2\nCF_Email=\n"

abbrev loaded : Dict String
loaded = ("CF_Key", "abc") ∷ ("CF_Email", "") ∷ []

read_credentials : load_env_vars read_word (some credentials) ≡ some loaded
unfolding load_env_vars
read_credentials = refl

environment_protected_example :
    (lookup "PATH" (run_environment (("PATH", "/bin") ∷ []) loaded (some "/acme.log"))
      ≡ some "/bin")
    × IsAllowed loaded
environment_protected_example =
    environment_protected read_word (some credentials) (some "/acme.log") (("PATH", "/bin") ∷ [])
      loaded "PATH" read_credentials refl
