-- ===== src/Services/Refinement/Retirement.antt =====
-- The soft delete (acme_api/services/certificate_lifecycle_operations.py) as a change of
-- one row.
use acme_api.Common.{
  ℕ, Option, none, some, ◌≡◌, refl, ◌∙◌, true, arith, inl, inr, Bool-cases, Option-cases,
}
use acme_api.Common.Table.{update-missing}
use acme_api.Models.Certificate.{Status, Certificate, same_status}
use acme_api.Models.World.{World}
use acme_api.Models.Certificate.{valid}
use acme_api.Scheduler.Schedule.{remove_certificate}
use acme_api.Ports.Dispatcher.{Dispatcher, certificates-dispatch}
use acme_api.Ports.Jobs.{JobStore}
use acme_api.Services.Rows.{get, with_status, certificate_id, assign_status}
use acme_api.Services.Retirement.{retired_status, remove_jobs, revoke_from, request_manual_renewal}
use acme_api.Services.Change.{is_retired, retire}
use acme_api.Services.Effect.{Effect, same, changed, Effect-if}

retired_status-is_retired : (c : Certificate) → is_retired (retired_status c) ≡ true
retired_status-is_retired c = ground arith

certificates-remove_jobs :
    (o : Option JobStore) (id : ℕ) (w : World) → (remove_jobs o id w).certificates ≡ w.certificates
unfolding remove_certificate
certificates-remove_jobs none id w = refl
certificates-remove_jobs (some store) id w = refl

-- A plain assignment of the status to the row, if it is there.
assign_status-Effect :
    (id : ℕ) (seen s : Status) (w w' : World)
    → is_retired s ≡ true
    → w'.certificates ≡ (assign_status id seen s w).certificates
    → Effect w w'
assign_status-Effect id seen s w w' d e = elim (Bool-cases (same_status seen s)) [
  | inl g ↦ same (rw (e, g))
  | inr g ↦ elim (Option-cases (get id w)) [
    | inl n ↦ same (rw (e, g) (update-missing certificate_id id (with_status s) w.certificates n))
    | inr (c, h) ↦ changed id c (with_status s) h (retire s d refl) (λ x. refl) (rw (e, g))
  ]
]

pub revoke_from-Effect :
    (hooks : Option Dispatcher) (store : Option JobStore) (seen : Option Certificate) (id : ℕ)
    (w : World)
    → Effect w (revoke_from hooks store seen id w).1
unfolding revoke_from
revoke_from-Effect hooks store none id w = same refl
revoke_from-Effect hooks store (some c) id w =
    assign_status-Effect id c.status (retired_status c) w _ (retired_status-is_retired c) (
      certificates-remove_jobs store id _
      ∙ certificates-dispatch hooks _ (with_status (retired_status c) c) _)

pub request_manual_renewal-Effect : (id : ℕ) (w : World) → Effect w (request_manual_renewal id w).1
unfolding request_manual_renewal
request_manual_renewal-Effect id w = elim (Option-cases (get id w)) [
  | inl e ↦ rw (e, request_manual_renewal) (same refl)
  | inr (c, e) ↦
      rw (e, request_manual_renewal)
        (Effect-if (same_status c.status valid) _ _ (λ _. same refl) (λ _. same refl))
]
