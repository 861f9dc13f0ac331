-- ===== src/Services/Refinement/Requests.antt =====
-- The creation of a request (acme_api/services/certificates.py) as a change of the table.
use acme_api.Common.Table.{any-none}
use acme_api.Services.Change.{same_identity}
use acme_api.Common.{ℕ, Option, none, some, ◌≡◌, refl, arith, inl, inr, Option-cases}
use acme_api.Models.Certificate.{Certificate}
use acme_api.Models.World.{World, Result, ok, err}
use acme_api.Ports.Settings.{AcmeAccountConfig}
use acme_api.Ports.Backend.{Backend}
use acme_api.Ports.Dispatcher.{Dispatcher, certificates-dispatch}
use acme_api.Services.Rows.{get}
use acme_api.Services.Requests.{
  same_request, CertificateCreate, find_request, insert_row, build_row, create_from,
}
use acme_api.Services.Effect.{Effect, same, inserted}

module _ (backend : Backend) (id : ℕ) (account : AcmeAccountConfig) (p : CertificateCreate) where
  pub build_row-id : (row : Certificate) → build_row backend id account p ≡ ok row → row.id ≡ id
  unfolding build_row
  build_row-id row e = ground arith

  pub build_row-identity :
      (row : Certificate)
      → build_row backend id account p ≡ ok row
      → (c : Certificate) → same_identity row c ≡ same_request p c
  unfolding build_row
  build_row-identity row e c = ground arith

insert_row-Effect :
    (hooks : Option Dispatcher) (p : CertificateCreate) (row : Certificate) (w : World)
    → get row.id w ≡ none
    → ((c : Certificate) → same_identity row c ≡ same_request p c)
    → Effect w (insert_row hooks p row w).1
unfolding insert_row
insert_row-Effect hooks p row w fresh identity = elim (Option-cases (find_request p w)) [
  | inl e ↦
      rw (e, insert_row)
        (inserted row fresh
          (any-none (same_identity row) (same_request p) identity w.certificates
            (unfold find_request in e))
          (certificates-dispatch hooks "certificate.created" row _))
  | inr (c, e) ↦ rw (e, insert_row) (same refl)
]

module _ (backend : Backend) (hooks : Option Dispatcher) (id : ℕ) (account : AcmeAccountConfig)
    (p : CertificateCreate) (w : World) (fresh : get id w ≡ none) where
  with_row-Effect :
      (r : Result Certificate)
      → build_row backend id account p ≡ r
      → Effect w (create_from backend hooks none id account p w).1
  unfolding create_from
  with_row-Effect (ok row) e =
      rw (e, create_from)
        (insert_row-Effect hooks p row w (rw (build_row-id backend id account p row e) fresh)
          (build_row-identity backend id account p row e))
  with_row-Effect (err f) e = rw (e, create_from) (same refl)

  -- A new row needs an identifier that no row has.
  pub create_from-Effect :
      (seen : Option Certificate) → Effect w (create_from backend hooks seen id account p w).1
  unfolding create_from
  create_from-Effect (some c) = same refl
  create_from-Effect none = with_row-Effect (build_row backend id account p) refl
