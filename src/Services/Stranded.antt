-- ===== src/Services/Stranded.antt =====
-- An `OSError` or `ValueError` of the backend during issuance or renewal: `_issue_and_deploy` and
-- `renew_certificate` (acme_api/services/certificates.py, acme_api/scheduler.py) do not catch it.
use acme_api.Common.{Option, some, ◌≡◌, refl}
use acme_api.Models.Certificate.{Certificate, valid, renewing}
use acme_api.Models.World.{World, Failure, ok, err}
use acme_api.Ports.Settings.{RenewalConfig}
use acme_api.Ports.Backend.{Backend}
use acme_api.Ports.Deployer.{Deployer}
use acme_api.Ports.Dispatcher.{Dispatcher}
use acme_api.Services.Rows.{get, put, with_status, get-put_self}
use acme_api.Services.Issuance
use acme_api.Scheduler.Renewal
use acme_api.Scheduler.Renewal.{
  RenewalDeploymentConfig, attempt_renewal, begin_renewal, renew_certificate, conclude,
}

module _ (config : RenewalConfig) (backend : Backend) (deployer : Deployer)
    (deployment : Option RenewalDeploymentConfig) (hooks : Option Dispatcher) where
  -- If the ACME client cannot be executed while a valid certificate is being renewed, the error
  -- escapes without a recorded attempt, the row stays in the state `renewing`, and renewing it
  -- again does nothing.
  pub renew_stranded :
      (c : Certificate) (e : Failure) (w : World)
      → get c.id w ≡ some c
      → c.status ≡ valid
      → attempt_renewal backend deployer deployment (with_status renewing c) ≡ Renewal.crashed e
      → let (answer, w') = renew_certificate config backend deployer deployment hooks c.id w in
        (answer ≡ err e)
        × (w'.attempts ≡ w.attempts)
        × (get c.id w' ≡ some (with_status renewing c))
        × (renew_certificate config backend deployer deployment hooks c.id w' ≡ (ok tt, w'))
  unfolding renew_certificate
  renew_stranded c e w h s crash =
      let written : get c.id (put c.id (with_status renewing) w) ≡ some (with_status renewing c) =
        get-put_self (with_status renewing) (λ x. refl) c.id c w h in
      rw (h, begin_renewal, s, crash, conclude)
        (refl, refl, written, rw (written, begin_renewal) refl)
