-- ===== src/Common/Dict.antt =====
-- Python's dicts with texts as keys, as lists of pairs; also the entries of a directory by name.
-- It models no code of the repository by itself.
use Prim.Native.String.{String}
use mathlib.Core.Path.{◌≡◌}
use mathlib.Core.Logic.{◌≢◌}
use mathlib.Core.Bool.{false}
use mathlib.Core.Option.{Option, none, some}
use mathlib.Core.List.{List, [], ◌∷◌}
use native.Mathlib.Omega.{arith}
use text.Mathlib.TextEquality.{eq_iff}
use acme_api.Common.Tests.{str_eq, if◌then◌else◌}

abbrev pub Dict {ℓ} : Type ℓ → Type ℓ
Dict V = List (String × V)

module _ {ℓ} {V : Type ℓ} where
  abbrev pub lookup : String → Dict V → Option V
  lookup k [] = none
  lookup k ((j, v) ∷ d) = if str_eq j k then some v else lookup k d

  -- `d[k] = v`
  abbrev pub insert : String → V → Dict V → Dict V
  insert k v [] = (k, v) ∷ []
  insert k v ((j, w) ∷ d) = if str_eq j k then (j, v) ∷ d else (j, w) ∷ insert k v d

  abbrev pub erase : String → Dict V → Dict V
  erase k [] = []
  erase k ((j, w) ∷ d) = let rest = erase k d in if str_eq j k then rest else (j, w) ∷ rest

  pub lookup-insert :
      (j k : String) (v : V) (d : Dict V)
      → lookup j (insert k v d) ≡ (if str_eq k j then some v else lookup j d)
  lookup-insert j k v [] = ground arith
  lookup-insert j k v ((i, w) ∷ d) =
      ground (arith, lookup-insert j k v d, eq_iff i k, eq_iff i j, eq_iff k j)

  pub lookup-erase :
      (j k : String) (d : Dict V) → lookup j (erase k d) ≡ (if str_eq k j then none else lookup j d)
  lookup-erase j k [] = ground arith
  lookup-erase j k ((i, w) ∷ d) =
      ground (arith, lookup-erase j k d, eq_iff i k, eq_iff i j, eq_iff k j)

pub str_eq-ne : (a b : String) → a ≢ b → str_eq a b ≡ false
str_eq-ne a b n = ground (arith, eq_iff a b)

module _ {ℓ} {V : Type ℓ} (d : Dict V) where
  pub lookup-insert_self : (k : String) (v : V) → lookup k (insert k v d) ≡ some v
  lookup-insert_self k v = ground (arith, lookup-insert k k v d, eq_iff k k)

  pub lookup-insert_ne : (j k : String) (v : V) → k ≢ j → lookup j (insert k v d) ≡ lookup j d
  lookup-insert_ne j k v n = ground (arith, lookup-insert j k v d, str_eq-ne k j n)

  pub lookup-erase_ne : (j k : String) → k ≢ j → lookup j (erase k d) ≡ lookup j d
  lookup-erase_ne j k n = ground (arith, lookup-erase j k d, str_eq-ne k j n)

  pub insert-insert : (k : String) (v w : V) → insert k v (insert k w d) ≡ insert k v d
  insert-insert k v w = overwrite d
    where
      overwrite : (d : Dict V) → insert k v (insert k w d) ≡ insert k v d
      overwrite [] = ground (arith, eq_iff k k)
      overwrite ((j, x) ∷ d) = ground (arith, overwrite d)
