-- ===== src/Schemas/Directories.antt =====
-- The directories that acme_api/deployer.py gives to the domains that the schema accepts
-- (acme_api/schemas/certificate.py).
use acme_api.Common.{
  ℕ, String, Option, none, some, List, [], ◌∷◌, ◌≡◌, refl, sym, ap, ◌∙◌, Bool, true, false, ◌||◌,
  ◌==◌, Bool-cases, Option-cases, inl, inr, arith, str_eq, eq_iff, ==-eq,
}
use acme_api.Common.Text.{after_prefix, has_char, remove_prefix, starts_with}
use acme_api.Common.TextLaws.{append-after_prefix, has_char-append}
use acme_api.Models.World.{ok}
use acme_api.Deployer.Names.{is_unsafe, directory_of_safe, deployment_directory_name}
use acme_api.Deployer.Distinct.{directory_name_injective}
use acme_api.Schemas.Domains.{
  is_alphanumeric, Match, step, start, matches_from, matches_pattern, valid, validate_domains,
}
use acme_api.Schemas.Accepted.{validated_domains}
use Prim.Native.Char.{code}
use Prim.Native.String.{◌++◌}

-- The characters that a label or its end may have.
abbrev is_domain_char : ℕ → Bool
is_domain_char n = n == 46 || is_alphanumeric n || n == 45

step-none : (n : ℕ) (m : Match) → is_domain_char n ≡ false → step n m ≡ none
step-none n m h = ground arith

matches_from-has_char :
    (n : ℕ) (s : String) (o : Option Match)
    → is_domain_char n ≡ false
    → matches_from s o ≡ true
    → has_char n s ≡ false
matches_from-has_char n s none h k = ground arith
matches_from-has_char n String.[] (some m) h k = refl
matches_from-has_char n (String.◌∷◌ c cs) (some m) h k = elim (Bool-cases (code c == n)) [
  | inl e ↦
      let e' : code c ≡ n = ==-eq (code c) n e in
      let stuck : step (code c) m ≡ none = step-none (code c) m (rw e' h) in
      let q : matches_from cs none ≡ true = ap (matches_from cs) (sym stuck) ∙ k in
      absurd (ground arith)
  | inr e ↦ rw (e, matches_from-has_char n cs (step (code c) m) h k) refl
]

-- An accepted domain has only letters, digits, "-" and ".", and a "*" at most in front.
accepted-has_char :
    (n : ℕ) (s : String)
    → is_domain_char n ≡ false
    → has_char n "*." ≡ false
    → matches_pattern s ≡ true
    → has_char n s ≡ false
unfolding matches_pattern
accepted-has_char n s h star k = elim (Option-cases (after_prefix "*." s)) [
  | inl e ↦ matches_from-has_char n s (some start) h (rw (remove_prefix, e) at k)
  | inr (rest, e) ↦
      let q : has_char n rest ≡ false =
        matches_from-has_char n rest (some start) h (rw (remove_prefix, e) at k) in
      let p : has_char n ("*." ++ rest) ≡ false = rw (has_char-append n "*." rest, star, q) refl in
      rw (append-after_prefix "*." s rest e) p
]

unmarked : (s : String) → has_char 64 s ≡ false → starts_with s "@wildcard@." ≡ false
unmarked String.[] h = refl
unmarked (String.◌∷◌ c cs) h = ground arith

unlike_refused :
    (s t : String) → matches_pattern s ≡ true → matches_pattern t ≡ false → str_eq s t ≡ false
unlike_refused s t k h = elim (Bool-cases (str_eq s t)) [
  | inl e ↦
      let same : matches_pattern s ≡ matches_pattern t = ap matches_pattern ((eq_iff s t).0 e) in
      absurd (ground arith)
  | inr e ↦ e
]

-- No accepted name is one that paths treat in a special way.
accepted-not_special :
    (s : String) → matches_pattern s ≡ true → (str_eq s "" || str_eq s "." || str_eq s "..") ≡ false
unfolding matches_pattern
accepted-not_special s k =
    rw (unlike_refused s "" k refl, unlike_refused s "." k refl, unlike_refused s ".." k refl) refl

accepted-safe : (s : String) → matches_pattern s ≡ true → is_unsafe s ≡ false
accepted-safe s k =
    rw
      (
        accepted-has_char 47 s refl refl k,
        accepted-has_char 92 s refl refl k,
        accepted-not_special s k,
      )
      refl

-- The primary domain of a validated request has a directory.
accepted_directory :
    (repr : String → String) (s : String)
    → matches_pattern s ≡ true
    → deployment_directory_name repr s ≡ ok (directory_of_safe s)
unfolding deployment_directory_name
accepted_directory repr s k = rw (accepted-safe s k) refl

first_accepted :
    (repr : String → String) (p : String) (ps ds : List String)
    → validate_domains repr ds ≡ valid (p ∷ ps)
    → matches_pattern p ≡ true
unfolding validate_domains
first_accepted repr p ps [] h = absurd (ground arith)
first_accepted repr p ps (d ∷ ds) h = (validated_domains repr d ds (p ∷ ps) h).1.0.0

same_image :
    (f : String → String) (p q : String) → (f p ≡ f q → p ≡ q) → str_eq (f p) (f q) ≡ str_eq p q
same_image f p q injective = elim (Bool-cases (str_eq p q)) [
  | inl e ↦ (eq_iff (f p) (f q)).1 (ap f ((eq_iff p q).0 e)) ∙ sym e
  | inr e ↦ elim (Bool-cases (str_eq (f p) (f q))) [
    | inl h ↦
        let same : p ≡ q = injective ((eq_iff (f p) (f q)).0 h) in h ∙ sym ((eq_iff p q).1 same)
    | inr h ↦ h ∙ sym e
  ]
]

-- Every request that the schema accepts has a directory, made of its first domain, and two of them
-- have the same directory exactly if their first domains are the same after normalisation.
pub validated_directories :
    (repr : String → String) (p q : String) (ps qs ds es : List String)
    → validate_domains repr ds ≡ valid (p ∷ ps)
    → validate_domains repr es ≡ valid (q ∷ qs)
    → (deployment_directory_name repr p ≡ ok (directory_of_safe p))
      × (deployment_directory_name repr q ≡ ok (directory_of_safe q))
      × (str_eq (directory_of_safe p) (directory_of_safe q) ≡ str_eq p q)
validated_directories repr p q ps qs ds es hp hq =
    let kp = first_accepted repr p ps ds hp in
    let kq = first_accepted repr q qs es hq in
    let e = accepted_directory repr p kp in
    let f = accepted_directory repr q kq in
    let injective = λ (same : directory_of_safe p ≡ directory_of_safe q).
      directory_name_injective repr p q (directory_of_safe p)
        (unmarked p (accepted-has_char 64 p refl refl kp))
        (unmarked q (accepted-has_char 64 q refl refl kq)) e (f ∙ sym (ap ok same)) in
    (e, f, same_image directory_of_safe p q injective)
