-- ===== src/Acmesh/Arguments.antt =====
-- The arguments of acme.sh that acme_api/backend/acmesh_backend.py builds.
use acme_api.Common.{
  ◌||◌, ℕ, String, Option, none, some, List, [], ◌∷◌, ◌++◌, Bool, not, str_eq, if◌then◌else◌,
}
use acme_api.Common.Text.{remove_prefix}
use acme_api.Common.Numerals.{decimal}
use acme_api.Ports.Backend.{ChallengeParams, dns_01_params, dns_persist_params, IssueRequest}

-- `chain_args_for`, whose loop goes over the domains after the first.
abbrev pub domain_args : List String → List String
domain_args [] = []
domain_args (d ∷ ds) = "--domain" ∷ d ∷ domain_args ds

abbrev pub chain_args_for : List String → List String
chain_args_for [] = []
chain_args_for (primary ∷ rest) = domain_args rest

-- `[flag, value]` where there is a value.
abbrev pub option_args : String → Option String → List String
option_args flag none = []
option_args flag (some v) = flag ∷ v ∷ []

abbrev pub keylength_args : String → List String
keylength_args k =
    if not (str_eq k "ecdsa") then "--keylength" ∷ remove_prefix k "rsa-" ∷ [] else []

abbrev sleep_args : Option ℕ → List String
sleep_args none = []
sleep_args (some n) = "--dnssleep" ∷ decimal n ∷ []

abbrev pub challenge_args : Option ℕ → ChallengeParams → List String
challenge_args dnssleep (dns_01_params provider env) = "--dns" ∷ provider ∷ sleep_args dnssleep
challenge_args dnssleep dns_persist_params = "--dns-persist" ∷ []

abbrev pub issue_options : Option ℕ → IssueRequest → List String
issue_options dnssleep q =
    keylength_args q.key_algorithm
    ++ (option_args "--server" (some q.server_url)
        ++ (challenge_args dnssleep q.challenge
            ++ option_args "--accountkey-file" q.account_key_path))

abbrev pub issue_args_for : Option ℕ → IssueRequest → List String → Option (List String)
issue_args_for dnssleep q [] = none
issue_args_for dnssleep q (primary ∷ rest) = some (
    "--issue"
    ∷ "--domain"
    ∷ primary
    ∷ (chain_args_for (primary ∷ rest) ++ issue_options dnssleep q))

-- The arguments of `issue_certificate`, for the requests that the service makes; `none` is the
-- error for an empty list. `dnssleep` is the configured `dnssleep_seconds`.
unfoldable pub issue_args : Option ℕ → IssueRequest → Option (List String)
issue_args dnssleep q = issue_args_for dnssleep q q.domains

-- The arguments of `renew_certificate`; `forced` is the configured `force_renewal`.
unfoldable pub renew_args : Bool → List String → Bool → Option (List String)
renew_args forced [] force = none
renew_args forced (primary ∷ rest) force = some (
    "--renew"
    ∷ "--domain"
    ∷ primary
    ∷ (chain_args_for (primary ∷ rest) ++ (if force || forced then "--force" ∷ [] else [])))

abbrev reason_args : Option ℕ → List String
reason_args none = []
reason_args (some reason) = "--revoke-reason" ∷ decimal reason ∷ []

abbrev flag_args : Bool → String → List String
flag_args b flag = if b then flag ∷ [] else []

-- The arguments of `revoke_certificate`.
unfoldable pub revoke_args :
    String
    → (reason : Option ℕ) → (key_algorithm : String) → (account_key_path server_url : Option String)
    → List String
revoke_args domain reason key_algorithm account_key_path server_url =
    "--revoke"
    ∷ "--domain"
    ∷ domain
    ∷ (flag_args (str_eq key_algorithm "ecdsa") "--ecc"
        ++ (reason_args reason
            ++ (option_args "--server" server_url
                ++ option_args "--accountkey-file" account_key_path)))

-- The arguments of `make_dns_persist_value`.
unfoldable pub persist_value_args :
    String → (wildcard : Bool) → (account_key_path server_url : Option String) → List String
persist_value_args domain wildcard account_key_path server_url =
    "--make-dns-persist-value"
    ∷ "--domain"
    ∷ domain
    ∷ (flag_args wildcard "--dns-persist-wildcard"
        ++ (option_args "--server" server_url ++ option_args "--accountkey-file" account_key_path))
