-- ===== src/Common/Table.antt =====
-- A table of the database: its rows in order of insertion, each with a primary key.
use Prim.Native.Nat.{ℕ}
use mathlib.Core.Path.{◌≡◌, refl}
use mathlib.Core.Bool.{Bool, true, false}
use mathlib.Core.Logic.{inl, inr}
use mathlib.Core.Option
use mathlib.Core.Option.{Option, none, some}
use mathlib.Core.List.{List, [], ◌∷◌}
use native.Mathlib.Omega.{arith}
use acme_api.Common.Tests.{◌==◌, if◌then◌else◌, Bool-cases, or_false}
use acme_api.Common.Lists.{any}

module _ {ℓ} {A : Type ℓ} where
  -- `SELECT ... WHERE test LIMIT 1`
  abbrev pub find_where : (A → Bool) → List A → Option A
  find_where test [] = none
  find_where test (r ∷ rs) = if test r then some r else find_where test rs

module _ {ℓ} {A : Type ℓ} (key : A → ℕ) where
  -- `session.get(Model, k)`
  abbrev pub find : ℕ → List A → Option A
  find k [] = none
  find k (r ∷ rs) = if key r == k then some r else find k rs

  -- `UPDATE ... WHERE id = k`, on the one row with that key.
  abbrev pub update : ℕ → (A → A) → List A → List A
  update k f [] = []
  update k f (r ∷ rs) = if key r == k then f r ∷ rs else r ∷ update k f rs

  pub find-key : (k : ℕ) (rs : List A) (r : A) → find k rs ≡ some r → key r ≡ k
  find-key k [] r e = ground arith
  find-key k (x ∷ rs) r e = ground (arith, find-key k rs r)

  module _ (f : A → A) (keeps : (r : A) → key (f r) ≡ key r) where
    pub find-update :
        (j k : ℕ) (rs : List A)
        → find j (update k f rs) ≡ (if j == k then Option.map f (find j rs) else find j rs)
    find-update j k [] = ground arith
    find-update j k (r ∷ rs) = ground (arith, keeps r, find-update j k rs)

    pub find-update_self :
        (k : ℕ) (rs : List A) (r : A) → find k rs ≡ some r → find k (update k f rs) ≡ some (f r)
    find-update_self k [] r e = ground arith
    find-update_self k (x ∷ rs) r e = ground (arith, keeps x, find-update_self k rs r)

module _ {ℓ} {A : Type ℓ} (key : A → ℕ) where
  pub update-missing :
      (k : ℕ) (f : A → A) (rs : List A) → find key k rs ≡ none → update key k f rs ≡ rs
  update-missing k f [] e = refl
  update-missing k f (r ∷ rs) e = ground (arith, update-missing k f rs)

module _ {ℓ} {A : Type ℓ} (test : A → Bool) where
  -- What a query finds meets its condition.
  pub find_where-holds : (rs : List A) (r : A) → find_where test rs ≡ some r → test r ≡ true
  find_where-holds [] r e = ground arith
  find_where-holds (x ∷ rs) r e = elim (Bool-cases (test x)) [
    | inl g ↦ ground arith
    | inr g ↦ find_where-holds rs r (ground arith)
  ]

  pub find_where-none : (rs : List A) → any test rs ≡ false → find_where test rs ≡ none
  find_where-none [] e = refl
  find_where-none (x ∷ rs) e =
      let (h, t) = or_false (test x) (any test rs) e in rw h (find_where-none rs t)

-- If a query finds nothing, no row meets a condition that agrees with the query's.
pub any-none {ℓ} :
    {A : Type ℓ} (f g : A → Bool)
    → ((a : A) → f a ≡ g a)
    → (rs : List A) → find_where g rs ≡ none
    → any f rs ≡ false
any-none f g h [] e = refl
any-none f g h (r ∷ rs) e = elim (Bool-cases (g r)) [
  | inl q ↦ ground arith
  | inr q ↦ rw (h r, q) (any-none f g h rs (ground arith))
]
