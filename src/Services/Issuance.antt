-- ===== src/Services/Issuance.antt =====
-- Issuance in acme_api/services/certificates.py: claiming a request, the call of the backend and
-- the deployment, and the guarded update that records the result.
use acme_api.Common.{
  ℕ, String, Option, none, some, List, [], ◌∷◌, Bool, not, is_none, if◌then◌else◌, ◌&&◌, ◌||◌,
}
use acme_api.Models.Certificate.{
  Status, pending, released, issuing, valid, failed, same_status, ChallengeMethod, dns_01,
  dns_persist, same_method, Certificate, GenerationDetails,
}
use acme_api.Models.Audit.{text, texts, number, Value}
use acme_api.Models.World.{
  World, Failure, os_error, value_error, Result, ok, err, Action, deployment, ◌>>◌, forget,
}
use acme_api.Ports.Settings.{AppSettings, RenewalConfig, AcmeAccountConfig}
use acme_api.Ports.Backend.{
  Backend, Outcome, IssuanceResult, ChallengeParams, dns_01_params, dns_persist_params,
}
use acme_api.Ports.Deployer.{
  DeploymentPaths, DeploymentOptions, Deployed, deployed, deployment_failed, deployment_os_error,
  Deployer,
}
use acme_api.Ports.Dispatcher.{Dispatcher, dispatch_webhook}
use acme_api.Scheduler.Schedule.{schedule_certificate}
use acme_api.Services.Accounts.{
  acme_account, dns_provider, IssueError, transient_error, terminal_error, deployment_error,
  error_category, error_text,
}
use acme_api.Services.Generations.{generation_details}
use acme_api.Services.Rows.{get, put, record_event, with_status, assign_status}

-- How the backend call and the deployment end: artifacts in place, an error that is caught, or an
-- `OSError` or `ValueError`, which nothing on the way catches.
pub data Attempt : Type 0 where
  issued : IssuanceResult → DeploymentPaths → Attempt
  rejected : IssueError → Attempt
  crashed : Failure → Attempt

module _ (settings : AppSettings) (backend : Backend) (deployer : Deployer) where
  abbrev deployment_options : Certificate → DeploymentOptions
  deployment_options c = record {
    permissions_cert = settings.deployment.permissions_cert;
    permissions_key = settings.deployment.permissions_key;
    artifact_group_id = settings.deployment.artifact_group_id;
    issuer = some c.acme_account_ref;
    allowed_source_roots = if settings.is_acmesh then some (settings.home_dir ∷ []) else none;
    generation = record {
      enabled = settings.deployment.generation_aware;
      retention_count = settings.deployment.generation_retention_count;
      retention_days = settings.deployment.generation_retention_days;
    };
  }

  after_deploy : IssuanceResult → Deployed → Attempt
  after_deploy result (deployed paths) = issued result paths
  after_deploy result (deployment_failed m) = rejected (deployment_error m)
  after_deploy result (deployment_os_error m) = crashed (os_error m)

  after_backend : Certificate → Outcome IssuanceResult → Attempt
  unfolding after_deploy
  after_backend c (Outcome.ok result) =
      after_deploy result (
        deployer.deploy_issuance_result result settings.deployment.directory (deployment_options c))
  after_backend c (Outcome.transient m) = rejected (transient_error m)
  after_backend c (Outcome.terminal m) = rejected (terminal_error m)
  after_backend c (Outcome.os_error m) = crashed (os_error m)
  after_backend c (Outcome.value_error m) = crashed (value_error m)

  call_backend : Certificate → AcmeAccountConfig → ChallengeParams → Attempt
  unfolding after_backend
  call_backend c account params = after_backend c (
      backend.issue_certificate (record {
        domains = c.domains;
        key_algorithm = c.key_algorithm;
        challenge = params;
        account_key_path = account.account_key_path;
        server_url = account.server_url;
      }))

  -- An error of the look-ups is a `DeploymentError`.
  abbrev lookup_rejected : Failure → Attempt
  lookup_rejected (deployment m) = rejected (deployment_error m)
  lookup_rejected _ = rejected (deployment_error "")

  with_provider : Certificate → AcmeAccountConfig → Option String → Attempt
  unfolding call_backend dns_provider
  with_provider c account none =
      rejected (deployment_error "DNS provider is required for dns-01 issuance.")
  with_provider c account (some name) = elim (dns_provider settings name) [
    | err e ↦ lookup_rejected e
    | ok p ↦ call_backend c account (dns_01_params p.provider_name p.env_vars_file_path)
  ]

  with_account : Certificate → ChallengeMethod → AcmeAccountConfig → Attempt
  unfolding with_provider call_backend
  with_account c dns_01 account = with_provider c account c.dns_provider_ref
  with_account c dns_persist account = call_backend c account dns_persist_params

  -- The `try` block of `_issue_and_deploy`, which leaves the database alone.
  unfoldable pub attempt_issuance : Certificate → ChallengeMethod → Attempt
  unfolding with_account acme_account
  attempt_issuance c method = elim (acme_account settings c.acme_account_ref) [
    | err e ↦ lookup_rejected e
    | ok account ↦ with_account c method account
  ]

-- The scheduler is optional in the service.
abbrev pub schedule : Option RenewalConfig → Certificate → Action (Unit {0})
schedule none c w = (ok tt, w)
schedule (some config) c w = forget (schedule_certificate config c) w

abbrev pub issued_row :
    IssuanceResult → DeploymentPaths → Option GenerationDetails → Certificate → Certificate
issued_row result paths details c = record c {
  expiry_date = some result.cert.expires_at;
  status = valid;
  current_generation_id = paths.generation_id;
  current_generation_details = details;
}

abbrev issued_event : IssuanceResult → DeploymentPaths → Certificate → List (String × Value)
issued_event result paths c =
    ("domains", texts c.domains)
    ∷ ("expires_at", number result.cert.expires_at)
    ∷ ("deployment_path", text paths.directory)
    ∷ []

module _ (hooks : Option Dispatcher) (scheduler : Option RenewalConfig) where
  -- The end of `_issue_and_deploy`: a row that is no longer being issued is left alone.
  unfoldable pub complete :
      ℕ → IssuanceResult → DeploymentPaths → Option GenerationDetails → Action (Unit {0})
  unfolding schedule_certificate
  complete id result paths details w = elim (get id w) [
    | none ↦ (ok tt, w)
    | some c ↦
        let row = issued_row result paths details c in
        let w' = dispatch_webhook hooks "certificate.issued" row (
          record_event id "certificate.issued" (issued_event result paths c)
            (put id (issued_row result paths details) w)) in
        let scheduled = schedule scheduler row w' in
        if same_status c.status issuing then scheduled else (ok tt, w)
  ]

  -- The description of the generation is read before the update.
  abbrev pub complete_with :
      ℕ → IssuanceResult → DeploymentPaths → Result (Option GenerationDetails) → Action (Unit {0})
  complete_with id result paths (err e) w = (err e, w)
  complete_with id result paths (ok details) w = complete id result paths details w

module _ (hooks : Option Dispatcher) where
  unfoldable pub mark_failed : ℕ → IssueError → World → World
  mark_failed id error w = elim (get id w) [
    | none ↦ w
    | some c ↦
        if same_status c.status issuing
        then dispatch_webhook hooks "certificate.failed" (with_status failed c) (
            record_event id "certificate.failed"
              (("category", text (error_category error)) ∷ ("error", text (error_text error)) ∷ [])
              (put id (with_status failed) w))
        else w
  ]

module _ (deployer : Deployer) (hooks : Option Dispatcher) (scheduler : Option RenewalConfig) where
  -- What `_issue_and_deploy` does with the outcome of its `try` block.
  unfoldable pub finish : ℕ → Attempt → Action (Unit {0})
  unfolding complete mark_failed generation_details
  finish id (issued result paths) w =
      complete_with hooks scheduler id result paths (generation_details deployer paths) w
  finish id (rejected error) w = (ok tt, mark_failed hooks id error w)
  finish id (crashed e) w = (err e, w)

-- The claim of `issue_certificate` on the row that it read: the row to issue, if any.
unfoldable pub claim_pending : Option Certificate → World → Option Certificate × World
claim_pending none w = (none, w)
claim_pending (some c) w =
    if same_status c.status pending
    then (some (with_status issuing c), assign_status c.id c.status issuing w)
    else (none, w)

-- The guarded update of `issue_released_dns_persist_certificate`.
unfoldable pub claim_released : ℕ → World → Option Certificate × World
claim_released id w = elim (get id w) [
  | none ↦ (none, w)
  | some c ↦
      if same_status c.status released
      then (some (with_status issuing c), put id (with_status issuing) w)
      else (none, w)
]

abbrev pub to_resume : Certificate → Bool
to_resume c =
    same_method c.challenge_method dns_persist
    && not (is_none c.release_idempotency_key)
    && (same_status c.status released || same_status c.status issuing)

abbrev select_resumable : List Certificate → List (ℕ × Status)
select_resumable [] = []
select_resumable (c ∷ cs) =
    if to_resume c then (c.id, c.status) ∷ select_resumable cs else select_resumable cs

module _ (settings : AppSettings) (backend : Backend) (deployer : Deployer)
    (hooks : Option Dispatcher) (scheduler : Option RenewalConfig) where
  -- `_issue_and_deploy`, on the row as the task holds it.
  unfoldable pub issue_and_deploy : Certificate → ChallengeMethod → Action (Unit {0})
  unfolding finish attempt_issuance
  issue_and_deploy c method w =
      finish deployer hooks scheduler c.id (attempt_issuance settings backend deployer c method) w

  -- Issue what a claim returned.
  abbrev issue_claimed : Option Certificate → ChallengeMethod → Action (Unit {0})
  issue_claimed none method w = (ok tt, w)
  issue_claimed (some c) method w = issue_and_deploy c method w

  unfoldable pub issue_certificate : ℕ → Action (Unit {0})
  unfolding claim_pending issue_and_deploy
  issue_certificate id w =
      let (claimed, w') = claim_pending (get id w) w in issue_claimed claimed dns_01 w'

  unfoldable pub issue_released : ℕ → Action (Unit {0})
  unfolding claim_released issue_and_deploy
  issue_released id w =
      let (claimed, w') = claim_released id w in issue_claimed claimed dns_persist w'

  -- `issue_dns_persist_certificate`: the authorisation has claimed the row.
  unfoldable pub issue_dns_persist : ℕ → Action (Unit {0})
  unfolding issue_and_deploy
  issue_dns_persist id w = elim (get id w) [
    | none ↦ (ok tt, w)
    | some c ↦ if same_status c.status issuing then issue_and_deploy c dns_persist w else (ok tt, w)
  ]

  resume_each : List (ℕ × Status) → Action (Unit {0})
  unfolding issue_released issue_dns_persist
  resume_each [] w = (ok tt, w)
  resume_each ((id, status) ∷ rest) w =
      ((if same_status status released then issue_released id else issue_dns_persist id)
          >> resume_each rest)
        w

  -- `resume_released_dns_persist_certificates`, which the application runs when it starts.
  unfoldable pub resume_released : Action (Unit {0})
  unfolding resume_each
  resume_released w = resume_each (select_resumable w.certificates) w
