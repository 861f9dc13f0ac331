-- ===== src/Scheduler/Outcomes.antt =====
-- How a renewal of acme_api/scheduler.py ends, from its claim to the row that it leaves.
use acme_api.Common.{
  ℕ, zero, suc, ◌+◌, ◌<◌, String, Option, none, some, ◌≡◌, refl, ap, ◌∙◌, Bool, true, arith,
}
use acme_api.Models.Certificate.{Certificate, valid, renewing, failed, GenerationDetails}
use acme_api.Models.World.{World}
use acme_api.Ports.Settings.{RenewalConfig}
use acme_api.Ports.Backend.{Backend, IssuanceResult}
use acme_api.Ports.Deployer.{DeploymentPaths, Deployer}
use acme_api.Ports.Dispatcher.{Dispatcher}
use acme_api.Scheduler.Renewal.{
  failure, conclude, renewed_row, begin_renewal, attempt_renewal, attempt_count, renew_certificate,
  record_failure, RenewalDeploymentConfig,
}
use acme_api.Scheduler.Retries.{retry_scheduled, retry_exhausted}
use acme_api.Services.Rows.{get, put, with_status, get-put_self, with_status_same}

-- The row with the result of a renewal.
abbrev pub up_to_date :
    IssuanceResult → Option DeploymentPaths → Option GenerationDetails → Certificate → Certificate
up_to_date result none details c = record c {
  status = valid;
  expiry_date = some result.cert.expires_at;
}
up_to_date result (some paths) details c = record c {
  status = valid;
  expiry_date = some result.cert.expires_at;
  current_generation_id = paths.generation_id;
  current_generation_details = details;
}

module _ (result : IssuanceResult) (details : Option GenerationDetails) (c : Certificate) where
  pub renewed_row-id :
      (paths : Option DeploymentPaths) (y : Certificate)
      → (renewed_row result paths details c y).id ≡ y.id
  renewed_row-id none y = refl
  renewed_row-id (some p) y = refl

module _ (config : RenewalConfig) (backend : Backend) (deployer : Deployer)
    (deployment : Option RenewalDeploymentConfig) (hooks : Option Dispatcher) where
  -- The same renewal job run a number of times.
  pub renew_times : ℕ → ℕ → World → World
  renew_times zero id w = w
  renew_times (suc n) id w =
      renew_times n id (renew_certificate config backend deployer deployment hooks id w).1

  renewing_world : ℕ → World → World
  renewing_world id w = put id (with_status renewing) w

  renew_failure :
      (id : ℕ) (c : Certificate) (message : String) (transient : Bool) (w : World)
      → get id w ≡ some c
      → c.status ≡ valid
      → attempt_renewal backend deployer deployment (with_status renewing c)
        ≡ failure message transient
      → (renew_certificate config backend deployer deployment hooks id w).1
        ≡ record_failure config hooks
            (with_status renewing c)
            message
            transient
            (renewing_world c.id w)
  unfolding renew_certificate renewing_world
  renew_failure id c message transient w h s a = rw (h, begin_renewal, s, a, conclude)

  module _ (message : String)
      (down : (c : Certificate)
        → attempt_renewal backend deployer deployment c ≡ failure message true) where
    -- A run with attempts left leaves the row as it was, with one more failed attempt.
    run_retried :
        (c : Certificate) (w : World)
        → get c.id w ≡ some c
        → c.status ≡ valid
        → attempt_count c.id w < config.max_retries
        → let w' = (renew_certificate config backend deployer deployment hooks c.id w).1 in
          (get c.id w' ≡ some c) × (attempt_count c.id w' ≡ suc (attempt_count c.id w))
    unfolding renewing_world attempt_count
    run_retried c w h s lt =
        let (counted, row, _) =
          retry_scheduled config hooks (with_status renewing c) (with_status renewing c) message
            (renewing_world c.id w) (get-put_self (with_status renewing) (λ y. refl) c.id c w h)
            lt in
        rw (renew_failure c.id c message true w h s (down (with_status renewing c)))
          (row ∙ ap some (with_status_same valid c s), counted)

    run_failed :
        (c : Certificate) (w : World)
        → get c.id w ≡ some c
        → c.status ≡ valid
        → attempt_count c.id w ≡ config.max_retries
        → get c.id (renew_certificate config backend deployer deployment hooks c.id w).1
          ≡ some (with_status failed c)
    unfolding renewing_world attempt_count
    run_failed c w h s e =
        let (_, row, _) =
          retry_exhausted config hooks (with_status renewing c) (with_status renewing c) message
            (renewing_world c.id w) (get-put_self (with_status renewing) (λ y. refl) c.id c w h)
            true (ground arith) in
        rw (renew_failure c.id c message true w h s (down (with_status renewing c))) row

    -- While the backend keeps failing transiently, a valid certificate with `k` attempts left is
    -- still valid and unchanged after `k` more runs of its renewal job, and has failed after one
    -- run more.
    pub retries_run_out :
        (k : ℕ) (c : Certificate) (w : World)
        → get c.id w ≡ some c
        → c.status ≡ valid
        → attempt_count c.id w + k ≡ config.max_retries
        → (get c.id (renew_times k c.id w) ≡ some c)
          × (get c.id (renew_times (suc k) c.id w) ≡ some (with_status failed c))
    unfolding renew_times
    retries_run_out zero c w h s e = (h, run_failed c w h s (omega arith))
    retries_run_out (suc k) c w h s e =
        let (row, counted) = run_retried c w h s (omega arith) in
        retries_run_out k c (renew_certificate config backend deployer deployment hooks c.id w).1
          row s (omega (arith, counted))
