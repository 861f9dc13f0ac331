-- ===== src/Schemas/Accepted.antt =====
-- What the validated domains of a request are (acme_api/schemas/certificate.py), and which
-- directories acme_api/deployer.py gives them.
use acme_api.Common.{
  String, List, [], ◌∷◌, ◌≡◌, refl, sym, ◌∙◌, true, false, not, ◌&&◌, ◌||◌, All, arith, contains,
  str_eq, eq_iff, map,
}
use acme_api.Schemas.Domains.{
  matches_pattern, is_short, Validated, valid, invalid, place, others, check_each, with_checked,
  normalize, validate_domains,
}

-- A domain that the pattern matches and that is not too long.
abbrev pub IsAccepted : String → Type 0
IsAccepted s = (matches_pattern s ≡ true) × (is_short s ≡ true)

abbrev pub NoRepeats : List String → Type 0
NoRepeats [] = Unit
NoRepeats (s ∷ rest) = (contains s rest ≡ false) × NoRepeats rest

contains-place :
    (d s : String) (ts : List String) → contains d (place s ts) ≡ (str_eq s d || contains d ts)
contains-place d s [] = refl
contains-place d s (t ∷ ts) = ground (arith, contains-place d s ts)

place-NoRepeats :
    (s : String) (ts : List String) → contains s ts ≡ false → NoRepeats ts → NoRepeats (place s ts)
place-NoRepeats s [] h k = (refl, tt)
place-NoRepeats s (t ∷ ts) h (fresh, k) =
    ground (arith, contains-place t s ts, place-NoRepeats s ts, eq_iff s t, eq_iff t s)

others-NoRepeats : (p : String) (rest : List String) → NoRepeats (others p rest)
others-NoRepeats p [] = tt
others-NoRepeats p (s ∷ rest) =
    ground (arith, others-NoRepeats p rest, place-NoRepeats s (others p rest))

contains-others :
    (d p : String) (rest : List String)
    → contains d (others p rest) ≡ (not (str_eq p d) && contains d rest)
contains-others d p [] = ground arith
contains-others d p (s ∷ rest) = ground (
  arith,
  contains-others d p rest,
  contains-others s p rest,
  contains-place d s (others p rest),
  eq_iff s p,
  eq_iff s d,
  eq_iff p d,
)

place-All :
    (P : String → Type 0) (s : String) (ts : List String) → P s → All P ts → All P (place s ts)
place-All P s [] h k = (h, tt)
place-All P s (t ∷ ts) h (x, k) = ground (arith, place-All P s ts h k)

others-All :
    (P : String → Type 0) (p : String) (rest : List String) → All P rest → All P (others p rest)
others-All P p [] h = tt
others-All P p (s ∷ rest) (x, h) =
    ground (arith, others-All P p rest h, place-All P s (others p rest) x)

module _ (repr : String → String) where
  check_each-All : (xs : List String) → check_each repr xs ≡ valid tt → All IsAccepted xs
  check_each-All [] h = tt
  check_each-All (s ∷ rest) h = ground (arith, check_each-All rest)

  accepted_list :
      (v : Validated (Unit {0})) (p : String) (rest out : List String)
      → with_checked repr v p rest ≡ valid out
      → (v ≡ valid tt) × (p ∷ others p rest ≡ out)
  accepted_list (invalid m) p rest out h = ground arith
  accepted_list (valid tt) p rest out h = (refl, cc)

  -- The validated domains begin with the first one of the request, normalised; each of them matches
  -- the pattern and is not too long, none occurs twice, and they are the normalised domains of the
  -- request and no others.
  pub validated_domains :
      (first : String) (rest out : List String)
      → validate_domains repr (first ∷ rest) ≡ valid out
      → ((more : List String) × (out ≡ normalize first ∷ more))
        × All IsAccepted out
        × NoRepeats out
        × ((d : String) → contains d out ≡ contains d (map normalize (first ∷ rest)))
  unfolding validate_domains
  validated_domains first rest out h =
      let p = normalize first in
      let names = map normalize rest in
      let (checked, e) = accepted_list (check_each repr (p ∷ names)) p names out h in
      let (a, b) = check_each-All (p ∷ names) checked in
      let fresh : contains p (others p names) ≡ false =
        contains-others p p names ∙ rw ((eq_iff p p).1 refl) refl in
      let same = λ (d : String).
        let k : (str_eq p d || contains d (others p names)) ≡ (str_eq p d || contains d names) =
          rw (contains-others d p names) (ground arith) in
        k in
      rw (sym e) (
        (others p names, refl),
        (a, others-All IsAccepted p names b),
        (fresh, others-NoRepeats p names),
        same,
      )
