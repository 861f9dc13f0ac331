-- ===== src/Deployer/Kept.antt =====
-- The retention of generations (acme_api/deployer.py).
use acme_api.Common.{
  ℕ, suc, ◌+◌, String, Option, some, List, [], ◌∷◌, ◌≡◌, refl, Bool, true, false, not, leb, ltb,
  count, count-append, ◌≤◌, arith, All, Bool-cases, inl, inr, and_true,
}
use acme_api.Deployer.Retention.{
  Generation, insert, is_newer, is_protected, removable, remove_from, exceeds_age, exceeds_count,
  sort_generations, visible_generations, cleanup_generations,
}

-- A generation that is neither current nor pinned, and is older than the cutoff, if there is one.
abbrev pub IsRemovable : Option ℕ → ℕ → Option String → List String → Generation → Type 0
IsRemovable days now current pinned g =
    (is_protected current pinned g ≡ false) × (exceeds_age days now g ≡ true)

not-true : (b : Bool) → not b ≡ true → b ≡ false
not-true b h = ground arith

module _ (count days : Option ℕ) (now : ℕ) (current : Option String) (pinned : List String) where
  removable-IsRemovable :
      (index : ℕ) (g : Generation)
      → removable count days now current pinned index g ≡ true
      → IsRemovable days now current pinned g
  removable-IsRemovable index g h =
      let (p, q) = and_true (not (is_protected current pinned g)) _ h in
      (not-true _ p, (and_true (exceeds_count count index) (exceeds_age days now g) q).1)

  pub removed-IsRemovable :
      (index : ℕ) (gs : List Generation)
      → All
          (IsRemovable days now current pinned)
          (remove_from count days now current pinned index gs)
  removed-IsRemovable index [] = tt
  removed-IsRemovable index (g ∷ gs) =
      elim (Bool-cases (removable count days now current pinned index g)) [
        | inl h ↦ rw h (removable-IsRemovable index g h, removed-IsRemovable (suc index) gs)
        | inr h ↦ rw h (removed-IsRemovable (suc index) gs)
      ]

-- A generation that is no older than a given instant.
abbrev since : ℕ → Generation → Bool
since m g = leb m g.modified

not_newer : (a b : Generation) → is_newer a b ≡ false → a.modified ≤ b.modified
not_newer a b h = elim (Bool-cases (ltb b.modified a.modified)) [
  | inl g ↦ absurd (ground arith)
  | inr g ↦ ground arith
]

newer : (a b : Generation) → is_newer a b ≡ true → b.modified ≤ a.modified
newer a b h = elim (Bool-cases (ltb b.modified a.modified)) [
  | inl g ↦ ground arith
  | inr g ↦ ground arith
]

-- The latest first.
abbrev IsSorted : List Generation → Type 0
IsSorted [] = Unit
IsSorted (g ∷ gs) = All (λ h. h.modified ≤ g.modified) gs × IsSorted gs

All-below :
    (m n : ℕ) (gs : List Generation)
    → m ≤ n
    → All (λ h. h.modified ≤ m) gs
    → All (λ h. h.modified ≤ n) gs
All-below m n [] e h = tt
All-below m n (g ∷ gs) e (h, k) = (omega arith, All-below m n gs e k)

insert-All :
    (m : ℕ) (g : Generation) (gs : List Generation)
    → g.modified ≤ m
    → All (λ h. h.modified ≤ m) gs
    → All (λ h. h.modified ≤ m) (insert g gs)
insert-All m g [] e h = (e, tt)
insert-All m g (x ∷ gs) e (h, k) = elim (Bool-cases (is_newer x g)) [
  | inl q ↦ rw q (h, insert-All m g gs e k)
  | inr q ↦ rw q (e, (h, k))
]

insert-IsSorted : (g : Generation) (gs : List Generation) → IsSorted gs → IsSorted (insert g gs)
insert-IsSorted g [] s = (tt, tt)
insert-IsSorted g (x ∷ gs) (below, s) = elim (Bool-cases (is_newer x g)) [
  | inl q ↦ rw q (insert-All x.modified g gs (newer x g q) below, insert-IsSorted g gs s)
  | inr q ↦
      let e = not_newer x g q in rw q ((e, All-below x.modified g.modified gs e below), (below, s))
]

sort_generations-IsSorted : (gs : List Generation) → IsSorted (sort_generations gs)
sort_generations-IsSorted [] = tt
sort_generations-IsSorted (g ∷ gs) =
    insert-IsSorted g (sort_generations gs) (sort_generations-IsSorted gs)

count-insert :
    (m : ℕ) (g : Generation) (gs : List Generation)
    → count (since m) (insert g gs) ≡ count (since m) (g ∷ gs)
count-insert m g [] = refl
count-insert m g (x ∷ gs) = elim (Bool-cases (is_newer x g)) [
  | inl q ↦ rw q (ground (arith, count-insert m g gs))
  | inr q ↦ rw q refl
]

count-sort_generations :
    (m : ℕ) (gs : List Generation) → count (since m) (sort_generations gs) ≡ count (since m) gs
count-sort_generations m [] = refl
count-sort_generations m (g ∷ gs) =
    ground (arith, count-insert m g (sort_generations gs), count-sort_generations m gs)

All-map :
    (P Q : Generation → Type 0) (gs : List Generation)
    → ((g : Generation) → P g → Q g)
    → All P gs
    → All Q gs
All-map P Q [] f h = tt
All-map P Q (g ∷ gs) f (h, k) = (f g h, All-map P Q gs f k)

count-since : (m : ℕ) (g : Generation) → m ≤ g.modified → count (since m) (g ∷ []) ≡ 1
count-since m g e = ground arith

-- One place further on, one more generation stands before those that are no newer than it.
one_more :
    (index : ℕ) (before : ℕ → ℕ) (g : Generation) (gs : List Generation)
    → All (λ h. h.modified ≤ g.modified) gs
    → All (λ h. index ≤ before h.modified) gs
    → All (λ h. suc index ≤ before h.modified + count (since h.modified) (g ∷ [])) gs
one_more index before g [] below h = tt
one_more index before g (x ∷ gs) (e, below) (k, h) =
    let c = count-since x.modified g e in (omega arith, one_more index before g gs below h)

count-split :
    (m : ℕ) (g : Generation) (gs : List Generation)
    → count (since m) (g ∷ gs) ≡ count (since m) (g ∷ []) + count (since m) gs
count-split m g gs = count-append (since m) (g ∷ []) gs

All-zero : (gs : List Generation) → All (λ g. 0 ≤ 0) gs
All-zero [] = tt
All-zero (g ∷ gs) = (omega arith, All-zero gs)

module _ (n : ℕ) (days : Option ℕ) (now : ℕ) (current : Option String) (pinned : List String) where
  -- How many generations that are no older than an instant stand before a place in the order.
  removed-late :
      (index : ℕ) (before : ℕ → ℕ) (gs : List Generation)
      → IsSorted gs
      → All (λ g. index ≤ before g.modified) gs
      → All
          (λ g. suc n ≤ before g.modified + count (since g.modified) gs)
          (remove_from (some n) days now current pinned index gs)
  removed-late index before [] s h = tt
  removed-late index before (g ∷ gs) (below, s) (here, h) =
      let later : ℕ → ℕ = λ m. before m + count (since m) (g ∷ []) in
      let rest = removed-late (suc index) later gs s (one_more index before g gs below h) in
      let moved =
        All-map (λ x. suc n ≤ later x.modified + count (since x.modified) gs)
          (λ x. suc n ≤ before x.modified + count (since x.modified) (g ∷ gs))
          (remove_from (some n) days now current pinned (suc index) gs)
          (λ x k. omega (arith, count-split x.modified g gs)) rest in
      elim (Bool-cases (removable (some n) days now current pinned index g)) [
        | inl q ↦
            let (_, q') = and_true (not (is_protected current pinned g)) _ q in
            let (reached, _) = and_true (leb n index) (exceeds_age days now g) q' in
            let passed : n ≤ index = ground arith in
            let own = count-since g.modified g (omega arith) in
            rw q (omega (arith, count-split g.modified g gs), moved)
        | inr q ↦ rw q moved
      ]

  -- With a retention count, the cleanup removes only generations that are neither current nor
  -- pinned and are older than the cutoff, if there is one; and for each that it removes, at least
  -- as many other visible generations as the count says are no older.
  pub cleanup_protects :
      (entries : List Generation)
      → All
          (IsRemovable days now current pinned)
          (cleanup_generations (some n) days now current pinned entries)
        × All
            (λ g. suc n ≤ count (λ h. leb g.modified h.modified) (visible_generations entries))
            (cleanup_generations (some n) days now current pinned entries)
  unfolding cleanup_generations
  cleanup_protects entries = (
    removed-IsRemovable (some n) days now current pinned 0 _,
    let gs = sort_generations (visible_generations entries) in
        let index_zero = All-zero gs in
        All-map (λ g. suc n ≤ 0 + count (since g.modified) gs)
          (λ g. suc n ≤ count (λ h. leb g.modified h.modified) (visible_generations entries))
          (remove_from (some n) days now current pinned 0 gs)
          (λ g k. omega (arith, count-sort_generations g.modified (visible_generations entries)))
          (removed-late 0 (λ m. 0) gs (sort_generations-IsSorted (visible_generations entries))
            index_zero),
  )
