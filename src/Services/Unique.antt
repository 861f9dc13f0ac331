-- ===== src/Services/Unique.antt =====
-- The constraints of the table of certificates (acme_api/models/certificate.py), the primary key
-- and the unique identity of a request, over every history of steps.
use acme_api.Common.{
  ℕ, none, some, List, [], ◌∷◌, ◌≡◌, refl, ap, ◌∙◌, Bool, true, false, not, ◌&&◌, ◌==◌, any, arith,
  Bool-cases, inl, inr, ◌⊎◌,
}
use acme_api.Common.Table.{find, update}
use acme_api.Models.Certificate.{Certificate}
use acme_api.Models.World.{World}
use acme_api.Services.Rows.{get, certificate_id}
use acme_api.Services.Change.{Keeps, Change-Keeps, Overwrite-Keeps, same_identity}
use acme_api.Services.Effect.{Effect, same, changed, inserted, Overwritten, overwritten}
use acme_api.Services.Interleaving.{Reach, here, next, overwrites, Step-Effect}

-- No two rows of the list are the same in the sense of the test.
abbrev pub distinct : (Certificate → Certificate → Bool) → List Certificate → Bool
distinct alike [] = true
distinct alike (x ∷ xs) = not (any (alike x) xs) && distinct alike xs

abbrev pub same_primary_key : Certificate → Certificate → Bool
same_primary_key a b = b.id == a.id

module _ (alike : Certificate → Certificate → Bool) (f : Certificate → Certificate)
    (c : Certificate) (left : (x : Certificate) → alike (f c) x ≡ alike c x)
    (right : (x : Certificate) → alike x (f c) ≡ alike x c) where
  any-update :
      (x : Certificate) (id : ℕ) (rs : List Certificate)
      → find certificate_id id rs ≡ some c
      → any (alike x) (update certificate_id id f rs) ≡ any (alike x) rs
  any-update x id [] e = refl
  any-update x id (r ∷ rs) e = elim (Bool-cases (r.id == id)) [
    | inl g ↦ let found : r ≡ c = ground arith in rw (g, found, right x) refl
    | inr g ↦ rw (g, any-update x id rs (ground arith)) refl
  ]

  distinct-update :
      (id : ℕ) (rs : List Certificate)
      → find certificate_id id rs ≡ some c
      → distinct alike (update certificate_id id f rs) ≡ distinct alike rs
  distinct-update id [] e = refl
  distinct-update id (r ∷ rs) e = elim (Bool-cases (r.id == id)) [
    | inl g ↦
        let found : r ≡ c = ground arith in
        rw (g, found) (ap (λ t. not (any t rs) && distinct alike rs) (λ i x. left x i))
    | inr g ↦
        let e' : find certificate_id id rs ≡ some c = ground arith in
        rw (g, any-update r id rs e', distinct-update id rs e') refl
  ]

-- The two constraints.
abbrev pub IsUnique : World → Type 0
IsUnique w =
    (distinct same_primary_key w.certificates ≡ true)
    × (distinct same_identity w.certificates ≡ true)

same_identity-Keeps :
    (c c' : Certificate)
    → Keeps c c'
    → ((x : Certificate) → same_identity c' x ≡ same_identity c x)
      × ((x : Certificate) → same_identity x c' ≡ same_identity x c)
same_identity-Keeps c c' k = (
  λ x. rw (k.name_kept, k.account_kept, k.method_kept) refl,
  λ x. rw (k.name_kept, k.account_kept, k.method_kept) refl,
)

any-same_primary_key :
    (row : Certificate) (rs : List Certificate)
    → find certificate_id row.id rs ≡ none
    → any (same_primary_key row) rs ≡ false
any-same_primary_key row [] e = refl
any-same_primary_key row (r ∷ rs) e = elim (Bool-cases (r.id == row.id)) [
  | inl g ↦ ground arith
  | inr g ↦ rw g (any-same_primary_key row rs (ground arith))
]

updated-IsUnique :
    (w w' : World) (id : ℕ) (c : Certificate) (f : Certificate → Certificate)
    → get id w ≡ some c
    → Keeps c (f c)
    → ((x : Certificate) → (f x).id ≡ x.id)
    → w'.certificates ≡ update certificate_id id f w.certificates
    → IsUnique w
    → IsUnique w'
updated-IsUnique w w' id c f hc kept keeps e (k, i) =
    let (left, right) = same_identity-Keeps c (f c) kept in
    (
      ap (distinct same_primary_key) e
          ∙ distinct-update same_primary_key f c (λ x. ap (λ n. x.id == n) (keeps c))
              (λ x. ap (λ n. n == x.id) (keeps c)) id w.certificates hc
          ∙ k,
      ap (distinct same_identity) e
          ∙ distinct-update same_identity f c left right id w.certificates hc
          ∙ i,
    )

Effect-IsUnique : (w w' : World) → Effect w w' → IsUnique w → IsUnique w'
Effect-IsUnique w w' (same e) (k, i) =
    (ap (distinct same_primary_key) e ∙ k, ap (distinct same_identity) e ∙ i)
Effect-IsUnique w w' (changed id c f hc ch keeps e) u =
    updated-IsUnique w w' id c f hc (Change-Keeps c (f c) ch) keeps e u
Effect-IsUnique w w' (inserted row fresh new e) (k, i) = (
  ap (distinct same_primary_key) e ∙ rw (any-same_primary_key row w.certificates fresh) k,
  ap (distinct same_identity) e ∙ rw new i,
)

step-IsUnique :
    (hit : ℕ → Bool) (w w' : World) → Effect w w' ⊎ Overwritten hit w w' → IsUnique w → IsUnique w'
step-IsUnique hit w w' (inl e) u = Effect-IsUnique w w' e u
step-IsUnique hit w w' (inr (overwritten id c f g hc ow keeps e)) u =
    updated-IsUnique w w' id c f hc (Overwrite-Keeps c (f c) ow) keeps e u

-- In every history of steps, of any number of tasks, no two rows have the same id and no two rows
-- have the same name, account and challenge method, if that is so at the start.
pub Reach-IsUnique : (w w' : World) → Reach w w' → IsUnique w → IsUnique w'
Reach-IsUnique w w' here u = u
Reach-IsUnique w w' (next {v} r st) u =
    step-IsUnique (overwrites st) v w' (Step-Effect st) (Reach-IsUnique w v r u)
