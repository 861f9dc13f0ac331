-- ===== src/Schemas/Domains.antt =====
-- The domains of a request: `CertificateCreate._validate_domains` of
-- acme_api/schemas/certificate.py.
use acme_api.Common.{
  ℕ, ◌+◌, String, Option, none, some, List, [], ◌∷◌, Bool, true, false, not, ◌&&◌, ◌||◌, ◌==◌, ltb,
  leb, str_eq, contains, if◌then◌else◌, map,
}
use acme_api.Common.Text.{remove_prefix, strip}
use acme_api.Auth.Keys.{text_length}
use Prim.Native.Char.{Char, code}
use Prim.Native.String.{◌++◌, compare}
use Prim.Native.Nat.{Ordering}

-- The capitals that `str.lower` turns into ASCII letters: those of ASCII and the Kelvin sign.
-- Another capital becomes a character that no valid domain has, as it is itself.
abbrev capitals : String
capitals = "ABCDEFGHIJKLMNOPQRSTUVWXYZK"

abbrev small_letters : String
small_letters = "abcdefghijklmnopqrstuvwxyzk"

abbrev translate : Char → String → String → Char
translate c (String.◌∷◌ u us) (String.◌∷◌ l ls) =
    let rest = translate c us ls in if code c == code u then l else rest
translate c _ _ = c

abbrev pub lower : String → String
lower String.[] = ""
lower (String.◌∷◌ c cs) = String.◌∷◌ (translate c capitals small_letters) (lower cs)

-- `domain.strip().lower()`
unfoldable pub normalize : String → String
normalize s = lower (strip s)

abbrev pub is_letter : ℕ → Bool
is_letter n = (leb 65 n && leb n 90) || (leb 97 n && leb n 122)

abbrev pub is_alphanumeric : ℕ → Bool
is_alphanumeric n = is_letter n || (leb 48 n && leb n 57)

-- How far the pattern has matched: whether a label has ended, and of the label under way its
-- length, whether its last character is alphanumeric, and whether it has letters only.
pub record Match : Type 0 where
  pub dotted : Bool
  pub length : ℕ
  pub closed : Bool
  pub letters : Bool

abbrev pub start : Match
start = record { dotted = false; length = 0; closed = false; letters = true }

-- One character: a "." ends a label of up to 63 characters; a label has letters, digits and "-",
-- the last neither first nor at its end.
abbrev pub step : ℕ → Match → Option Match
step n m =
    if n == 46
    then if m.closed && leb m.length 63
      then some (record { dotted = true; length = 0; closed = false; letters = true })
      else none
    else if is_alphanumeric n
    then some
        (record m { length = m.length + 1; closed = true; letters = m.letters && is_letter n })
    else if n == 45 && ltb 0 m.length
    then some (record m { length = m.length + 1; closed = false; letters = false })
    else none

-- The last label is one of at least two letters, after at least one other label.
abbrev pub matches_from : String → Option Match → Bool
matches_from s none = false
matches_from String.[] (some m) = m.dotted && leb 2 m.length && m.letters
matches_from (String.◌∷◌ c cs) (some m) = matches_from cs (step (code c) m)

-- The pattern `^(?:\*\.)?(label\.)+[a-zA-Z]{2,}$` of a stripped text.
unfoldable pub matches_pattern : String → Bool
matches_pattern s = matches_from (remove_prefix s "*.") (some start)

abbrev pub max_fqdn_length : ℕ
max_fqdn_length = 253

abbrev pub is_short : String → Bool
is_short s = leb (text_length (remove_prefix s "*.")) max_fqdn_length

-- The errors that pydantic turns into a response of status 422.
pub data Validated (A : Type 0) : Type 0 where
  valid : A → Validated A
  invalid : String → Validated A

abbrev is_before : String → String → Bool
is_before s t = elim (compare s t) [ Ordering.lt ↦ true | _ ↦ false ]

abbrev pub place : String → List String → List String
place s [] = s ∷ []
place s (t ∷ ts) = if is_before s t then s ∷ t ∷ ts else t ∷ place s ts

-- `sorted(set(domains) - {primary})`
abbrev pub others : String → List String → List String
others primary [] = []
others primary (s ∷ rest) =
    let more = others primary rest in
    if str_eq s primary || contains s more then more else place s more

module _ (repr : String → String) where
  -- The first domain that is refused, if any.
  abbrev pub check_each : List String → Validated (Unit {0})
  check_each [] = valid tt
  check_each (s ∷ rest) =
      let later = check_each rest in
      if not (matches_pattern s)
      then invalid ("Domain " ++ repr s ++ " does not match a valid DNS label pattern.")
      else if not (is_short s)
      then invalid ("Domain " ++ repr s ++ " exceeds maximum length of 253 characters.")
      else later

  abbrev pub with_checked : Validated (Unit {0}) → String → List String → Validated (List String)
  with_checked (invalid m) primary rest = invalid m
  with_checked (valid _) primary rest = valid (primary ∷ others primary rest)

  -- The field is not empty (`min_length=1`).
  unfoldable pub validate_domains : List String → Validated (List String)
  unfolding normalize matches_pattern
  validate_domains [] = invalid "List should have at least 1 item after validation, not 0"
  validate_domains (first ∷ rest) =
      let normalized = map normalize rest in
      with_checked (check_each (normalize first ∷ normalized)) (normalize first) normalized
