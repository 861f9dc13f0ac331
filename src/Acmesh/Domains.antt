-- ===== src/Acmesh/Domains.antt =====
-- The domains that acme.sh reads from the arguments it is given
-- (acme_api/backend/acmesh_backend.py).
use acme_api.Common.{
  ℕ, String, Option, none, some, List, [], ◌∷◌, ◌++◌, ◌≡◌, refl, sym, ap, ◌∙◌, Bool, true, false,
  ◌||◌, str_eq, arith, if◌then◌else◌, Bool-cases, inl, inr,
}
use mathlib.Core.Option.{some-injective}
use acme_api.Ports.Backend.{ChallengeParams, dns_01_params, dns_persist_params, IssueRequest}
use acme_api.Acmesh.Arguments.{
  domain_args, option_args, keylength_args, challenge_args, issue_options, issue_args_for,
  issue_args, renew_args,
}

-- The flags that the next argument belongs to, apart from "--domain".
abbrev pub takes_value : String → Bool
takes_value flag =
    str_eq flag "--keylength"
    || str_eq flag "--server"
    || str_eq flag "--dns"
    || str_eq flag "--dnssleep"
    || str_eq flag "--accountkey-file"

-- The reading of a command line, flag by flag.
abbrev pub read_domains : List String → List String
read_domains [] = []
read_domains (flag ∷ []) = []
read_domains (flag ∷ v ∷ rest) =
    let after = read_domains rest in
    let next = read_domains (v ∷ rest) in
    if str_eq flag "--domain" then v ∷ after else if takes_value flag then after else next

read_chain :
    (ds tail : List String) → read_domains tail ≡ [] → read_domains (domain_args ds ++ tail) ≡ ds
read_chain [] tail e = e
read_chain (d ∷ ds) tail e = ap (λ r. d ∷ r) (read_chain ds tail e)

read_option :
    (flag : String) (o : Option String) (tail : List String)
    → str_eq flag "--domain" ≡ false
    → takes_value flag ≡ true
    → read_domains (option_args flag o ++ tail) ≡ read_domains tail
read_option flag none tail n t = refl
read_option flag (some v) tail n t = rw (n, t) refl

read_keylength :
    (k : String) (tail : List String) → read_domains (keylength_args k ++ tail) ≡ read_domains tail
read_keylength k tail = elim (Bool-cases (str_eq k "ecdsa")) [
  | inl g ↦ rw g refl
  | inr g ↦ rw g refl
]

read_challenge :
    (n : Option ℕ) (c : ChallengeParams) (o : Option String)
    → read_domains (challenge_args n c ++ option_args "--accountkey-file" o) ≡ []
read_challenge none (dns_01_params p e) none = refl
read_challenge none (dns_01_params p e) (some k) = refl
read_challenge (some n) (dns_01_params p e) none = refl
read_challenge (some n) (dns_01_params p e) (some k) = refl
read_challenge n dns_persist_params none = refl
read_challenge n dns_persist_params (some k) = refl

read_options : (n : Option ℕ) (q : IssueRequest) → read_domains (issue_options n q) ≡ []
read_options n q =
    let after =
      challenge_args n q.challenge ++ option_args "--accountkey-file" q.account_key_path in
    read_keylength q.key_algorithm (option_args "--server" (some q.server_url) ++ after)
    ∙ read_option "--server" (some q.server_url) after refl refl
    ∙ read_challenge n q.challenge q.account_key_path

read_force : (b : Bool) → read_domains (if b then "--force" ∷ [] else []) ≡ []
read_force true = refl
read_force false = refl

-- The command line of an issuance names exactly the requested domains, the primary one first and
-- each once for each time that it is requested, whatever the other options are.
pub issue_domains :
    (n : Option ℕ) (q : IssueRequest) (args : List String)
    → issue_args n q ≡ some args
    → read_domains args ≡ q.domains
unfolding issue_args
issue_domains n q args h = from_list q.domains h
  where
    from_list : (ds : List String) → issue_args_for n q ds ≡ some args → read_domains args ≡ ds
    from_list [] h = ground arith
    from_list (d ∷ ds) h =
        ap read_domains (sym (some-injective _ _ h))
        ∙ ap (λ r. d ∷ r) (read_chain ds (issue_options n q) (read_options n q))

-- The command line of a renewal names exactly the requested domains, forced or not.
renew_domains :
    (forced force : Bool) (ds args : List String)
    → renew_args forced ds force ≡ some args
    → read_domains args ≡ ds
unfolding renew_args
renew_domains forced force [] args h = ground arith
renew_domains forced force (d ∷ ds) args h =
    ap read_domains (sym (some-injective _ _ h))
    ∙ ap (λ r. d ∷ r) (read_chain ds _ (read_force (force || forced)))
