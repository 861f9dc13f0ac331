-- ===== src/Acmesh/Protected.antt =====
-- The variables of acme.sh that a credentials file cannot set
-- (acme_api/backend/acmesh_backend.py).
use acme_api.Common.{
  String, Option, none, some, List, [], ◌∷◌, ◌≡◌, refl, sym, ap, ◌∙◌, true, false, ◌||◌, All,
  Bool-cases, Option-cases, inl, inr, arith, contains, str_eq, eq_iff,
}
use acme_api.Common.Dict.{Dict, lookup, insert, lookup-insert}
use acme_api.Common.Text.{remove_prefix, strip, starts_with}
use mathlib.Core.Path.{subst}
use acme_api.Acmesh.Environment.{
  partition, split_lines, upper, blocked_env_keys, is_allowed, value_of, set_value, assign,
  read_line, read_lines, load_env_vars, merge_env, run_environment,
}

-- Every variable of the dictionary has a name that the file may set.
abbrev pub IsAllowed : Dict String → Type 0
IsAllowed env = All (λ (x : String × String). is_allowed x.0 ≡ true) env

insert-IsAllowed :
    (k v : String) (env : Dict String)
    → is_allowed k ≡ true
    → IsAllowed env
    → IsAllowed (insert k v env)
insert-IsAllowed k v [] h a = (h, tt)
insert-IsAllowed k v ((j, w) ∷ env) h (x, a) = ground (arith, insert-IsAllowed k v env h a)

module _ (first_word : String → Option String) where
  assign-IsAllowed :
      (o : Option (String × String)) (env env' : Dict String)
      → assign first_word o env ≡ some env'
      → IsAllowed env
      → IsAllowed env'
  assign-IsAllowed none env env' h a = ground arith
  assign-IsAllowed (some (k, v)) env env' h a = elim (Bool-cases (is_allowed (strip k))) [
    | inl e ↦ by_value (value_of first_word (strip v)) e (rw e at h)
    | inr e ↦ ground arith
  ]
    where
      by_value :
          (o : Option String)
          → is_allowed (strip k) ≡ true
          → set_value first_word (strip k) o env ≡ some env'
          → IsAllowed env'
      by_value none e h = absurd (ground arith)
      by_value (some x) e h =
          let q : insert (strip k) x env ≡ env' = cc in
          subst IsAllowed q (insert-IsAllowed (strip k) x env e a)

  read_line-IsAllowed :
      (line : String) (env env' : Dict String)
      → read_line first_word line env ≡ some env'
      → IsAllowed env
      → IsAllowed env'
  read_line-IsAllowed line env env' h a =
      elim (Bool-cases (str_eq line "" || starts_with line "#")) [
        | inl e ↦ ground arith
        | inr e ↦ assign-IsAllowed (partition (remove_prefix line "export ")) env env' (rw e at h) a
      ]

  read_lines-IsAllowed :
      (lines : List String) (env env' : Dict String)
      → read_lines first_word lines (some env) ≡ some env'
      → IsAllowed env
      → IsAllowed env'
  read_lines-IsAllowed [] env env' h a = ground arith
  read_lines-IsAllowed (raw ∷ lines) env env' h a =
      elim (Option-cases (read_line first_word (strip raw) env)) [
        | inl e ↦
            let q : read_lines first_word lines none ≡ some env' =
              ap (read_lines first_word lines) (sym e) ∙ h in
            absurd (ground arith)
        | inr (next, e) ↦
            read_lines-IsAllowed lines next env' (ap (read_lines first_word lines) (sym e) ∙ h)
              (read_line-IsAllowed (strip raw) env next e a)
      ]

  load-IsAllowed :
      (content : Option String) (env : Dict String)
      → load_env_vars first_word content ≡ some env
      → IsAllowed env
  unfolding load_env_vars
  load-IsAllowed none env h = ground arith
  load-IsAllowed (some content) env h = read_lines-IsAllowed (split_lines content) [] env h tt

lookup-merge_env :
    (n : String) (env base : Dict String)
    → is_allowed n ≡ false
    → IsAllowed env
    → lookup n (merge_env base env) ≡ lookup n base
lookup-merge_env n [] base h a = refl
lookup-merge_env n ((k, v) ∷ env) base h (x, a) = elim (Bool-cases (str_eq k n)) [
  | inl e ↦
      let same : is_allowed k ≡ is_allowed n = ap is_allowed ((eq_iff k n).0 e) in
      absurd (ground arith)
  | inr e ↦ lookup-merge_env n env (insert k v base) h a ∙ lookup-insert n k v base ∙ rw e refl
]

blocked-is_allowed :
    (n : String) → contains (upper n) blocked_env_keys ≡ true → is_allowed n ≡ false
unfolding is_allowed
blocked-is_allowed n h = ground arith

blocked-log :
    (n : String) → contains (upper n) blocked_env_keys ≡ true → str_eq "LOG_FILE" n ≡ false
blocked-log n h = elim (Bool-cases (str_eq "LOG_FILE" n)) [
  | inl e ↦
      let same : contains (upper "LOG_FILE") blocked_env_keys
          ≡ contains (upper n) blocked_env_keys =
        ap (λ s. contains (upper s) blocked_env_keys) ((eq_iff "LOG_FILE" n).0 e) in
      absurd (ground arith)
  | inr e ↦ e
]

-- Whatever a credentials file says, acme.sh runs with the server's own values of PATH, HOME and the
-- other blocked variables, in capitals or not; and every variable that comes from the file has a
-- name that is a plain identifier and is not blocked.
pub environment_protected :
    (first_word : String → Option String) (content log : Option String) (base env : Dict String)
    (n : String)
    → load_env_vars first_word content ≡ some env
    → contains (upper n) blocked_env_keys ≡ true
    → (lookup n (run_environment base env log) ≡ lookup n base) × IsAllowed env
unfolding run_environment
environment_protected first_word content none base env n h k =
    let a = load-IsAllowed first_word content env h in
    (lookup-merge_env n env base (blocked-is_allowed n k) a, a)
environment_protected first_word content (some log) base env n h k =
    let a = load-IsAllowed first_word content env h in
    let below = lookup-merge_env n env base (blocked-is_allowed n k) a in
    (lookup-insert n "LOG_FILE" log (merge_env base env) ∙ rw (blocked-log n k) below, a)
