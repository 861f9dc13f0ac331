-- ===== src/Services/Refinement/Renewal.antt =====
-- The writes of a renewal (acme_api/scheduler.py) to the row of the certificate.
use acme_api.Common.{
  ℕ, String, Option, none, some, ◌≡◌, refl, ◌∙◌, ◌⊎◌, inl, inr, Bool, true, Bool-cases,
}
use acme_api.Models.Certificate.{
  Certificate, Status, valid, renewing, failed, same_status, same_status-eq, GenerationDetails,
}
use acme_api.Models.World.{World, Result, ok, err}
use acme_api.Ports.Settings.{RenewalConfig}
use acme_api.Ports.Backend.{IssuanceResult}
use acme_api.Ports.Deployer.{DeploymentPaths, Deployer}
use acme_api.Ports.Dispatcher.{Dispatcher, certificates-dispatch}
use acme_api.Scheduler.Schedule.{certificates-schedule}
use acme_api.Scheduler.Outcomes.{renewed_row-id}
use acme_api.Scheduler.Renewal.{
  Renewal, renewed, failure, crashed, renewed_row, details_of, conclude_with, conclude,
  after_failure, record_failure, retries, attempt_count, begin_renewal,
}
use acme_api.Services.Rows.{put, with_status}
use acme_api.Services.Change.{Overwrite, begun, ended, renewed as renews}
use acme_api.Services.Effect.{Effect, same, Overwritten, put-Overwritten}

pub begin_renewal-Effect :
    (hit : ℕ → Bool) (seen : Option Certificate) (w : World)
    → ((c : Certificate) → seen ≡ some c → same_status c.status valid ≡ true → hit c.id ≡ true)
    → Effect w (begin_renewal seen w).1 ⊎ Overwritten hit w (begin_renewal seen w).1
unfolding begin_renewal
begin_renewal-Effect hit none w h = inl (same refl)
begin_renewal-Effect hit (some c) w h = elim (Bool-cases (same_status c.status valid)) [
  | inl g ↦
      rw (begin_renewal, same_status-eq c.status valid g)
        (put-Overwritten hit c.id (with_status renewing) w (put c.id (with_status renewing) w)
          (h c refl g) (λ x. begun refl) (λ x. refl) refl)
  | inr g ↦ rw (begin_renewal, g) (inl (same refl))
]

renewed_row-Overwrite :
    (result : IssuanceResult) (paths : Option DeploymentPaths) (details : Option GenerationDetails)
    (c x : Certificate)
    → Overwrite x (renewed_row result paths details c x)
renewed_row-Overwrite result none details c x = renews _ _ _ refl
renewed_row-Overwrite result (some paths) details c x = renews _ _ _ refl

module _ (hit : ℕ → Bool) (config : RenewalConfig) (deployer : Deployer) (hooks : Option Dispatcher)
    (c : Certificate) (here : hit c.id ≡ true) where
  after_failure-Effect :
      (message : String) (transient : Bool) (at : Option ℕ) (s : Status) (w v : World)
      → (s ≡ valid) ⊎ (s ≡ failed)
      → v.certificates ≡ w.certificates
      → Effect w (after_failure hooks c message transient at s v)
        ⊎ Overwritten hit w (after_failure hooks c message transient at s v)
  unfolding after_failure
  after_failure-Effect message transient at s w v h e =
      put-Overwritten hit c.id (with_status s) w _ here (λ x. ended s h refl) (λ x. refl)
        (certificates-dispatch hooks "certificate.failed" (with_status s c) _ ∙ rw e refl)

  record_failure-Effect :
      (message : String) (transient : Bool) (w : World)
      → Effect w (record_failure config hooks c message transient w)
        ⊎ Overwritten hit w (record_failure config hooks c message transient w)
  unfolding record_failure
  record_failure-Effect message transient w =
      elim (Bool-cases (retries config transient (attempt_count c.id w))) [
        | inl g ↦
            rw (record_failure, g)
              (after_failure-Effect message transient _ valid w _ (inl refl) refl)
        | inr g ↦
            rw (record_failure, g)
              (after_failure-Effect message transient none failed w w (inr refl) refl)
      ]

  concluded-Effect :
      (result : IssuanceResult) (paths : Option DeploymentPaths)
      (read : Result (Option GenerationDetails)) (w : World)
      → Effect w (conclude_with config deployer hooks c result paths read w).1
        ⊎ Overwritten hit w (conclude_with config deployer hooks c result paths read w).1
  concluded-Effect result paths (err e) w = inl (same refl)
  concluded-Effect result paths (ok details) w =
      let row = renewed_row result paths details c in
      put-Overwritten hit c.id row w _ here (renewed_row-Overwrite result paths details c)
        (renewed_row-id result details c paths)
        (certificates-schedule config (row c) _
          ∙ certificates-dispatch hooks "certificate.renewed" (row c) _)

  -- The end of a renewal.
  pub conclude-Effect :
      (outcome : Renewal) (w : World)
      → Effect w (conclude config deployer hooks c outcome w).1
        ⊎ Overwritten hit w (conclude config deployer hooks c outcome w).1
  unfolding conclude
  conclude-Effect (renewed result paths) w =
      concluded-Effect result paths (details_of deployer paths) w
  conclude-Effect (failure m transient) w = record_failure-Effect m transient w
  conclude-Effect (crashed e) w = inl (same refl)
