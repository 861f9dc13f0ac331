-- ===== src/Services/Effect.antt =====
-- What one atomic step of the service does to the table of certificates: nothing, one change of
-- one row, or one new row.
use acme_api.Common.{
  any, ℕ, none, some, ◌∷◌, ◌≡◌, refl, ◌==◌, inl, inr, Bool-cases, ==-eq, if◌then◌else◌, Bool, true,
  false, Option-cases, ◌⊎◌, ap, ◌∙◌, arith,
}
use acme_api.Common.Table.{update, find-update, update-missing}
use acme_api.Models.Certificate.{Certificate}
use acme_api.Models.World.{World}
use acme_api.Services.Rows.{get, certificate_id}
use acme_api.Services.Change.{
  same_identity, Change, Overwrite, Keeps, Keeps-refl, Change-Keeps, Overwrite-Keeps, is_retired,
  Change-is_retired,
}

pub data Effect (w w' : World) : Type 0 where
  same : w'.certificates ≡ w.certificates → Effect w w'
  changed :
      (id : ℕ) (c : Certificate) (f : Certificate → Certificate)
      → get id w ≡ some c
      → Change c (f c)
      → ((x : Certificate) → (f x).id ≡ x.id)
      → w'.certificates ≡ update certificate_id id f w.certificates
      → Effect w w'
  inserted :
      (row : Certificate)
      → get row.id w ≡ none
      → any (same_identity row) w.certificates ≡ false
      → w'.certificates ≡ row ∷ w.certificates
      → Effect w w'

-- A row that was there is there afterwards, and has kept what it keeps.
pub data Survives (j : ℕ) (c : Certificate) (w' : World) : Type 0 where
  survives : (c' : Certificate) → get j w' ≡ some c' → Keeps c c' → Survives j c w'

-- A step that overwrites one of the rows that it may hit.
pub data Overwritten (hit : ℕ → Bool) (w w' : World) : Type 0 where
  overwritten :
      (id : ℕ) (c : Certificate) (f : Certificate → Certificate)
      → hit id ≡ true
      → get id w ≡ some c
      → Overwrite c (f c)
      → ((x : Certificate) → (f x).id ≡ x.id)
      → w'.certificates ≡ update certificate_id id f w.certificates
      → Overwritten hit w w'

-- A deleted row.
pub data IsRetired (j : ℕ) (w : World) : Type 0 where
  retired : (c : Certificate) → get j w ≡ some c → is_retired c.status ≡ true → IsRetired j w

-- One row after an update of another or of itself.
module _ (j id : ℕ) (c x : Certificate) (f : Certificate → Certificate) (w w' : World)
    (hx : get j w ≡ some x) (hc : get id w ≡ some c) (keeps : (y : Certificate) → (f y).id ≡ y.id)
    (e : w'.certificates ≡ update certificate_id id f w.certificates) where
  updated-get :
      ((j ≡ id) × (x ≡ c) × (get j w' ≡ some (f x))) ⊎ ((j == id) ≡ false) × (get j w' ≡ some x)
  updated-get = elim (Bool-cases (j == id)) [
    | inl s ↦ inl (
      ==-eq j id s,
      cc (hx, hc, ==-eq j id s),
      rw (e, find-update certificate_id f keeps j id w.certificates, s, hx),
    )
    | inr d ↦ inr (d, rw (e, find-update certificate_id f keeps j id w.certificates, d, hx))
  ]

  updated-Survives : Keeps c (f c) → Survives j x w'
  updated-Survives k = elim updated-get [
    | inl (_, same_row, h) ↦ survives (f x) h (rw same_row k)
    | inr (_, h) ↦ survives x h (Keeps-refl x)
  ]

pub Effect-Survives :
    {w w' : World} → Effect w w' → (j : ℕ) (c : Certificate) → get j w ≡ some c → Survives j c w'
Effect-Survives {w} {w'} (same e) j c h = survives c (rw e h) (Keeps-refl c)
Effect-Survives {w} {w'} (changed id d f hd ch keeps e) j c h =
    updated-Survives j id d c f w w' h hd keeps e (Change-Keeps d (f d) ch)
Effect-Survives {w} {w'} (inserted row fresh new e) j c h = elim (Bool-cases (row.id == j)) [
  | inl s ↦ cc (h, fresh, ==-eq row.id j s)
  | inr d ↦ survives c (rw (e, d) h) (Keeps-refl c)
]

pub Overwritten-Survives :
    {hit : ℕ → Bool} {w w' : World}
    → Overwritten hit w w'
    → (j : ℕ) (c : Certificate) → get j w ≡ some c
    → Survives j c w'
Overwritten-Survives {w = w} {w' = w'} (overwritten id d f g hd ow keeps e) j c h =
    updated-Survives j id d c f w w' h hd keeps e (Overwrite-Keeps d (f d) ow)

pub Effect-IsRetired : {w w' : World} → Effect w w' → (j : ℕ) → IsRetired j w → IsRetired j w'
Effect-IsRetired {w} {w'} (same e) j (retired c h d) = retired c (rw e h) d
Effect-IsRetired {w} {w'} (changed id c f hc ch keeps e) j (retired x h d) =
    elim (updated-get j id c x f w w' h hc keeps e) [
      | inl (_, same_row, k) ↦
          retired (f x) k (rw same_row (Change-is_retired c (f c) ch (rw same_row at d)))
      | inr (_, k) ↦ retired x k d
    ]
Effect-IsRetired {w} {w'} (inserted row fresh new e) j (retired c h d) =
    elim (Bool-cases (row.id == j)) [
      | inl s ↦ cc (h, fresh, ==-eq row.id j s)
      | inr n ↦ retired c (rw (e, n) h) d
    ]

pub Overwritten-IsRetired :
    {hit : ℕ → Bool} {w w' : World}
    → Overwritten hit w w'
    → (j : ℕ) → hit j ≡ false
    → IsRetired j w
    → IsRetired j w'
Overwritten-IsRetired {hit} {w} {w'} (overwritten id c f g hc ow keeps e) j spared (retired x h d) =
    elim (updated-get j id c x f w w' h hc keeps e) [
      | inl (here, _, _) ↦ let k : hit j ≡ true = ap hit here ∙ g in absurd (ground arith)
      | inr (_, k) ↦ retired x k d
    ]

-- An unguarded update of a row, which may be missing.
pub put-Overwritten :
    (hit : ℕ → Bool) (id : ℕ) (f : Certificate → Certificate) (w w' : World)
    → hit id ≡ true
    → ((x : Certificate) → Overwrite x (f x))
    → ((x : Certificate) → (f x).id ≡ x.id)
    → w'.certificates ≡ update certificate_id id f w.certificates
    → Effect w w' ⊎ Overwritten hit w w'
put-Overwritten hit id f w w' g ow keeps e = elim (Option-cases (get id w)) [
  | inl n ↦ inl (same (e ∙ update-missing certificate_id id f w.certificates n))
  | inr (x, h) ↦ inr (overwritten id x f g h (ow x) keeps e)
]

-- A step that branches is refined by both of its branches.
pub Effect-if :
    {A : Type 0} {w : World} (b : Bool) (x y : A × World)
    → (b ≡ true → Effect w x.1)
    → (b ≡ false → Effect w y.1)
    → Effect w (if b then x else y).1
Effect-if true x y hx hy = hx refl
Effect-if false x y hx hy = hy refl
