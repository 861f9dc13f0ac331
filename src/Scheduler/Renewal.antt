-- ===== src/Scheduler/Renewal.antt =====
-- `renew_certificate` and its parts in acme_api/scheduler.py. The row is read and marked as being
-- renewed, the backend runs, and the result is written to the row by its primary key alone.
use acme_api.Common.{
  ℕ, String, Option, none, some, List, [], ◌∷◌, Bool, true, false, ◌&&◌, ◌==◌, ltb, count,
  number_eq, if◌then◌else◌,
}
use acme_api.Models.Certificate.{
  Status, valid, renewing, failed, same_status, Certificate, GenerationDetails,
}
use acme_api.Models.Audit.{RenewalAttempt, AttemptStatus, text, texts, number, null, Value}
use acme_api.Models.World.{
  World, Failure, os_error, value_error, Result, ok, err, Action, renew_retry, add_job, forget,
}
use acme_api.Ports.Settings.{RenewalConfig}
use acme_api.Ports.Backend.{Backend, Outcome, IssuanceResult}
use acme_api.Ports.Deployer.{
  DeploymentPaths, GenerationOptions, DeploymentOptions, Deployed, deployed, deployment_failed,
  deployment_os_error, Deployer,
}
use acme_api.Ports.Dispatcher.{Dispatcher, dispatch_webhook}
use acme_api.Scheduler.Schedule.{schedule_certificate, retry_time, add_call}
use acme_api.Services.Assigned.{assigned, text_eq, details_eq}
use acme_api.Services.Generations.{generation_details}
use acme_api.Services.Rows.{get, put, record_event, with_status, assign_status}

pub record RenewalDeploymentConfig : Type 0 where
  pub root : String
  pub permissions_cert : ℕ
  pub permissions_key : ℕ
  pub artifact_group_id : Option ℕ
  pub allowed_source_roots : Option (List String)
  pub generation : GenerationOptions

abbrev is_failed : AttemptStatus → Bool
is_failed AttemptStatus.failed = true
is_failed AttemptStatus.success = false

abbrev pub is_failed_attempt : ℕ → RenewalAttempt → Bool
is_failed_attempt id a = (a.certificate_id == id) && is_failed a.status

-- `_attempt_count`: all the failed attempts that the table holds for the certificate.
unfoldable pub attempt_count : ℕ → World → ℕ
attempt_count id w = count (is_failed_attempt id) w.attempts

abbrev pub add_attempt : RenewalAttempt → World → World
add_attempt a w = record w { attempts = a ∷ w.attempts }

abbrev category : Bool → String
category transient = if transient then "transient" else "terminal"

abbrev pub failed_attempt : ℕ → String → Bool → Option ℕ → RenewalAttempt
failed_attempt id message transient next_retry_at = record {
  certificate_id = id;
  status = AttemptStatus.failed;
  error_category = some (category transient);
  error_details = some message;
  next_retry_at = next_retry_at;
}

-- The rows and the webhook of a failed attempt that leaves the row in a given status.
unfoldable pub after_failure :
    Option Dispatcher → Certificate → String → Bool → Option ℕ → Status → World → World
after_failure hooks c message transient next_retry_at s w =
    dispatch_webhook hooks "certificate.failed" (with_status s c) (
      record_event c.id "certificate.failed"
        (("category", text (category transient)) ∷ ("error", text message) ∷ [])
        (add_attempt (failed_attempt c.id message transient next_retry_at)
          (put c.id (with_status s) w)))

-- Whether another attempt is scheduled.
abbrev pub retries : RenewalConfig → Bool → ℕ → Bool
retries config transient attempts = transient && ltb attempts config.max_retries

-- `_record_failure`, on the row as the task holds it.
unfoldable pub record_failure :
    RenewalConfig → Option Dispatcher → Certificate → String → Bool → World → World
record_failure config hooks c message transient w =
    let attempts = attempt_count c.id w in
    let at = retry_time w.now attempts in
    if retries config transient attempts
    then after_failure hooks c message transient (some at) valid
        (add_call (add_job (renew_retry c.id) at none) w)
    else after_failure hooks c message transient none failed w

-- `_deploy_result` and the `try` blocks: artifacts, a failure that is recorded, or an `OSError` or
-- `ValueError`, which nothing catches.
pub data Renewal : Type 0 where
  renewed : IssuanceResult → Option DeploymentPaths → Renewal
  failure : (message : String) → (transient : Bool) → Renewal
  crashed : Failure → Renewal

module _ (backend : Backend) (deployer : Deployer)
    (deployment : Option RenewalDeploymentConfig) where
  abbrev deployment_options : RenewalDeploymentConfig → Certificate → DeploymentOptions
  deployment_options d c = record {
    permissions_cert = d.permissions_cert;
    permissions_key = d.permissions_key;
    artifact_group_id = d.artifact_group_id;
    issuer = some c.acme_account_ref;
    allowed_source_roots = d.allowed_source_roots;
    generation = d.generation;
  }

  deploy_outcome : IssuanceResult → Deployed → Renewal
  deploy_outcome result (deployed paths) = renewed result (some paths)
  deploy_outcome result (deployment_failed m) = failure m false
  deploy_outcome result (deployment_os_error m) = crashed (os_error m)

  deploy_result : IssuanceResult → Certificate → Option RenewalDeploymentConfig → Renewal
  unfolding deploy_outcome
  deploy_result result c none = renewed result none
  deploy_result result c (some d) =
      deploy_outcome result (deployer.deploy_issuance_result result d.root (deployment_options d c))

  backend_outcome : Certificate → Outcome IssuanceResult → Renewal
  unfolding deploy_result
  backend_outcome c (Outcome.ok result) = deploy_result result c deployment
  backend_outcome c (Outcome.transient m) = failure m true
  backend_outcome c (Outcome.terminal m) = failure m false
  backend_outcome c (Outcome.os_error m) = crashed (os_error m)
  backend_outcome c (Outcome.value_error m) = crashed (value_error m)

  unfoldable pub attempt_renewal : Certificate → Renewal
  unfolding backend_outcome
  attempt_renewal c = backend_outcome c (backend.renew_certificate c.domains false)

-- The row in the table, from the row `held` by the task. That one is being renewed, so its status
-- always changes.
abbrev pub renewed_row :
    IssuanceResult
    → Option DeploymentPaths
    → Option GenerationDetails
    → (held : Certificate) → Certificate
    → Certificate
renewed_row result none details held c = record c {
  expiry_date = assigned number_eq held.expiry_date (some result.cert.expires_at) c.expiry_date;
  status = valid;
}
renewed_row result (some paths) details held c = record c {
  expiry_date = assigned number_eq held.expiry_date (some result.cert.expires_at) c.expiry_date;
  current_generation_id =
      assigned text_eq held.current_generation_id paths.generation_id c.current_generation_id;
  current_generation_details =
      assigned details_eq held.current_generation_details details c.current_generation_details;
  status = valid;
}

-- The description of the generation, if there is one, is read before anything is written.
unfoldable pub details_of : Deployer → Option DeploymentPaths → Result (Option GenerationDetails)
unfolding generation_details
details_of deployer none = ok none
details_of deployer (some paths) = generation_details deployer paths

module _ (config : RenewalConfig) (deployer : Deployer) (hooks : Option Dispatcher) where
  abbrev deployment_path : Option DeploymentPaths → Value
  deployment_path none = null
  deployment_path (some paths) = text paths.directory

  abbrev pub renewed_world :
      Certificate
      → IssuanceResult
      → Option DeploymentPaths
      → Option GenerationDetails
      → World
      → World
  renewed_world c result paths details w =
      dispatch_webhook hooks "certificate.renewed" (renewed_row result paths details c c) (
        record_event c.id "certificate.renewed"
          (("domains", texts c.domains)
            ∷ ("expires_at", number result.cert.expires_at)
            ∷ ("deployment_path", deployment_path paths)
            ∷ [])
          (add_attempt
            (record {
              certificate_id = c.id;
              status = AttemptStatus.success;
              error_category = none;
              error_details = none;
              next_retry_at = none;
            })
            (put c.id (renewed_row result paths details c) w)))

  abbrev pub conclude_with :
      Certificate
      → IssuanceResult
      → Option DeploymentPaths
      → Result (Option GenerationDetails)
      → Action (Unit {0})
  conclude_with c result paths (err e) w = (err e, w)
  conclude_with c result paths (ok details) w =
      forget (schedule_certificate config (renewed_row result paths details c c))
        (renewed_world c result paths details w)

  -- What follows the backend and the deployment, on the row as the task holds it.
  unfoldable pub conclude : Certificate → Renewal → Action (Unit {0})
  unfolding record_failure schedule_certificate details_of
  conclude c (renewed result paths) w = conclude_with c result paths (details_of deployer paths) w
  conclude c (failure m transient) w = (ok tt, record_failure config hooks c m transient w)
  conclude c (crashed e) w = (err e, w)

-- The claim on the row that was read: the row to renew, if any.
unfoldable pub begin_renewal : Option Certificate → World → Option Certificate × World
begin_renewal none w = (none, w)
begin_renewal (some c) w =
    if same_status c.status valid
    then (some (with_status renewing c), assign_status c.id c.status renewing w)
    else (none, w)

module _ (config : RenewalConfig) (backend : Backend) (deployer : Deployer)
    (deployment : Option RenewalDeploymentConfig) (hooks : Option Dispatcher) where
  abbrev renew_claimed : Option Certificate → Action (Unit {0})
  renew_claimed none w = (ok tt, w)
  renew_claimed (some c) w =
      conclude config deployer hooks c (attempt_renewal backend deployer deployment c) w

  unfoldable pub renew_certificate : ℕ → Action (Unit {0})
  unfolding begin_renewal conclude attempt_renewal
  renew_certificate id w =
      let (claimed, w') = begin_renewal (get id w) w in renew_claimed claimed w'
