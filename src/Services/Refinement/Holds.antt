-- ===== src/Services/Refinement/Holds.antt =====
-- Authorising and releasing (acme_api/services/certificates.py) as changes of one row.
use acme_api.Common.{
  ℕ, String, Option, none, some, refl, arith, ◌==◌, ◌&&◌, not, inl, inr, Bool-cases, Option-cases,
  holds_text,
}
use acme_api.Models.Certificate.{held, Certificate, same_status, dns_persist, same_method}
use acme_api.Models.World.{World}
use acme_api.Services.Rows.{get, with_status}
use acme_api.Models.Certificate.{issuing}
use acme_api.Services.Holds.{
  mark_ready, request_issuance, release_current, authorize_from, release_from, awaits_dns,
  may_release, ready_row, released_row,
}
use acme_api.Services.Change.{ready, request, release}
use acme_api.Services.Effect.{Effect, same, changed, Effect-if}

mark_ready-Effect : (seen : Certificate) (id : ℕ) (w : World) → Effect w (mark_ready seen id w).1
unfolding mark_ready
mark_ready-Effect seen id w = elim (Option-cases (get id w)) [
  | inl e ↦ rw (e, mark_ready) (same refl)
  | inr (c, e) ↦ elim (Bool-cases (same_status c.status held && (c.revision == seen.revision))) [
    | inl g ↦
        rw (e, mark_ready, g)
          (changed id c ready_row e (ready (ground arith) refl) (λ x. refl) refl)
    | inr g ↦ rw (e, mark_ready, g) (same refl)
  ]
]

request_issuance-Effect : (id : ℕ) (w : World) → Effect w (request_issuance id w).1
unfolding request_issuance
request_issuance-Effect id w = elim (Option-cases (get id w)) [
  | inl e ↦ rw (e, request_issuance) (same refl)
  | inr (c, e) ↦ elim (Bool-cases (awaits_dns c.status)) [
    | inl g ↦
        rw (e, request_issuance, g)
          (changed id c (with_status issuing) e (request (ground arith) refl) (λ x. refl) refl)
    | inr g ↦ rw (e, request_issuance, g) (same refl)
  ]
]

pub authorize_from-Effect :
    (seen : Option Certificate) (id : ℕ) (w : World) → Effect w (authorize_from seen id w).1
unfolding authorize_from
authorize_from-Effect none id w = same refl
authorize_from-Effect (some seen) id w =
    Effect-if (not (same_method seen.challenge_method dns_persist)) _ _ (λ _. same refl)
      (λ _.
        Effect-if (same_status seen.status held) _ _ (λ _. mark_ready-Effect seen id w)
          (λ _.
            Effect-if (not (awaits_dns seen.status)) _ _ (λ _. same refl)
              (λ _. request_issuance-Effect id w)))

release_current-Effect :
    (id revision : ℕ) (key : String) (w : World) → Effect w (release_current id revision key w).1
unfolding release_current
release_current-Effect id revision key w = elim (Option-cases (get id w)) [
  | inl e ↦ rw (e, release_current) (same refl)
  | inr (c, e) ↦ elim (Bool-cases (may_release revision c)) [
    | inl g ↦
        rw (e, release_current, g)
          (changed id c (released_row key) e (release key (ground arith) (ground arith) refl)
            (λ x. refl) refl)
    | inr g ↦
        rw (e, release_current, g)
          (Effect-if (holds_text c.release_idempotency_key key) _ _ (λ _. same refl)
            (λ _. same refl))
  ]
]

pub release_from-Effect :
    (seen : Option Certificate) (id revision : ℕ) (key : String) (w : World)
    → Effect w (release_from seen id revision key w).1
unfolding release_from
release_from-Effect none id revision key w = same refl
release_from-Effect (some seen) id revision key w =
    Effect-if (not (same_method seen.challenge_method dns_persist)) _ _ (λ _. same refl)
      (λ _.
        Effect-if (holds_text seen.release_idempotency_key key) _ _ (λ _. same refl)
          (λ _. release_current-Effect id revision key w))
