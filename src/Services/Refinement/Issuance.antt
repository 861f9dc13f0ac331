-- ===== src/Services/Refinement/Issuance.antt =====
-- Claims and results of issuance (acme_api/services/certificates.py) as changes of one row.
use acme_api.Common.{
  ◌⊎◌, Bool, true, ℕ, Option, none, some, ◌≡◌, refl, ◌∙◌, arith, inl, inr, Bool-cases, Option-cases,
}
use acme_api.Models.Certificate.{
  issuing, pending, released, failed, Certificate, same_status, same_status-eq, GenerationDetails,
}
use acme_api.Models.World.{World, Result, ok, err}
use acme_api.Ports.Settings.{RenewalConfig}
use acme_api.Ports.Backend.{IssuanceResult}
use acme_api.Ports.Deployer.{DeploymentPaths, Deployer}
use acme_api.Ports.Dispatcher.{Dispatcher, certificates-dispatch}
use acme_api.Scheduler.Schedule.{certificates-schedule}
use acme_api.Services.Accounts.{IssueError}
use acme_api.Services.Generations.{generation_details}
use acme_api.Services.Rows.{get, put, with_status}
use acme_api.Services.Issuance.{
  Attempt, issued, rejected, crashed, complete, complete_with, mark_failed, finish, claim_pending,
  claim_released, issued_row, schedule,
}
use acme_api.Services.Change.{claim, complete as completes, fail, claimed}
use acme_api.Services.Effect.{Effect, same, changed, Overwritten, put-Overwritten}

pub certificates-schedule_row :
    (scheduler : Option RenewalConfig) (c : Certificate) (w : World)
    → (schedule scheduler c w).1.certificates ≡ w.certificates
certificates-schedule_row none c w = refl
certificates-schedule_row (some config) c w = certificates-schedule config c w

module _ (hooks : Option Dispatcher) (scheduler : Option RenewalConfig) where
  pub complete-Effect :
      (id : ℕ) (result : IssuanceResult) (paths : DeploymentPaths)
      (details : Option GenerationDetails) (w : World)
      → Effect w (complete hooks scheduler id result paths details w).1
  unfolding complete
  complete-Effect id result paths details w = elim (Option-cases (get id w)) [
    | inl e ↦ rw (e, complete) (same refl)
    | inr (c, e) ↦ elim (Bool-cases (same_status c.status issuing)) [
      | inl g ↦
          rw (e, complete, g)
            (changed id c (issued_row result paths details) e
              (completes (some result.cert.expires_at) _ _ (same_status-eq c.status issuing g) refl)
              (λ x. refl)
              (certificates-schedule_row scheduler _ _
                ∙ certificates-dispatch hooks "certificate.issued"
                    (issued_row result paths details c) _))
      | inr g ↦ rw (e, complete, g) (same refl)
    ]
  ]

  complete_with-Effect :
      (id : ℕ) (result : IssuanceResult) (paths : DeploymentPaths)
      (read : Result (Option GenerationDetails)) (w : World)
      → Effect w (complete_with hooks scheduler id result paths read w).1
  complete_with-Effect id result paths (err e) w = same refl
  complete_with-Effect id result paths (ok details) w = complete-Effect id result paths details w

pub mark_failed-Effect :
    (hooks : Option Dispatcher) (id : ℕ) (error : IssueError) (w : World)
    → Effect w (mark_failed hooks id error w)
unfolding mark_failed
mark_failed-Effect hooks id error w = elim (Option-cases (get id w)) [
  | inl e ↦ rw (e, mark_failed) (same refl)
  | inr (c, e) ↦ elim (Bool-cases (same_status c.status issuing)) [
    | inl g ↦
        rw (e, mark_failed, g)
          (changed id c (with_status failed) e (fail (same_status-eq c.status issuing g) refl)
            (λ x. refl) (certificates-dispatch hooks "certificate.failed" (with_status failed c) _))
    | inr g ↦ rw (e, mark_failed, g) (same refl)
  ]
]

pub finish-Effect :
    (deployer : Deployer) (hooks : Option Dispatcher) (scheduler : Option RenewalConfig) (id : ℕ)
    (attempt : Attempt) (w : World)
    → Effect w (finish deployer hooks scheduler id attempt w).1
unfolding finish
finish-Effect deployer hooks scheduler id (issued result paths) w =
    complete_with-Effect hooks scheduler id result paths (generation_details deployer paths) w
finish-Effect deployer hooks scheduler id (rejected error) w = mark_failed-Effect hooks id error w
finish-Effect deployer hooks scheduler id (crashed m) w = same refl

-- The claim of a row that was read as pending, which may be stale.
pub claim_pending-Effect :
    (hit : ℕ → Bool) (seen : Option Certificate) (w : World)
    → ((c : Certificate) → seen ≡ some c → same_status c.status pending ≡ true → hit c.id ≡ true)
    → Effect w (claim_pending seen w).1 ⊎ Overwritten hit w (claim_pending seen w).1
unfolding claim_pending
claim_pending-Effect hit none w h = inl (same refl)
claim_pending-Effect hit (some c) w h = elim (Bool-cases (same_status c.status pending)) [
  | inl g ↦
      rw (claim_pending, same_status-eq c.status pending g)
        (put-Overwritten hit c.id (with_status issuing) w (put c.id (with_status issuing) w)
          (h c refl g) (λ x. claimed refl) (λ x. refl) refl)
  | inr g ↦ rw (claim_pending, g) (inl (same refl))
]

pub claim_released-Effect : (id : ℕ) (w : World) → Effect w (claim_released id w).1
unfolding claim_released
claim_released-Effect id w = elim (Option-cases (get id w)) [
  | inl e ↦ rw (e, claim_released) (same refl)
  | inr (c, e) ↦ elim (Bool-cases (same_status c.status released)) [
    | inl g ↦
        rw (e, claim_released, g)
          (changed id c (with_status issuing) e (claim (ground arith) refl) (λ x. refl) refl)
    | inr g ↦ rw (e, claim_released, g) (same refl)
  ]
]
