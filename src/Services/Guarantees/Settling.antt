-- ===== src/Services/Guarantees/Settling.antt =====
-- How an issuance leaves its row (acme_api/services/certificates.py).
use acme_api.Common.{ℕ, Option, some, ◌≡◌, refl}
use acme_api.Models.Certificate.{
  Certificate, pending, issuing, failed, valid, dns_01, GenerationDetails,
}
use acme_api.Models.World.{World, Result, ok, err}
use acme_api.Ports.Settings.{AppSettings, RenewalConfig}
use acme_api.Ports.Backend.{Backend, IssuanceResult}
use acme_api.Ports.Deployer.{Deployer, DeploymentPaths}
use acme_api.Ports.Dispatcher.{Dispatcher, certificates-dispatch}
use acme_api.Services.Generations.{generation_details}
use acme_api.Services.Rows.{get, put, with_status, get-put_self}
use acme_api.Services.Issuance.{
  Attempt, issued, rejected, crashed, issued_row, complete, complete_with, mark_failed, finish,
  attempt_issuance, issue_and_deploy, claim_pending, issue_certificate,
}
use acme_api.Services.Selection.{certificates-schedule_optional}

-- The row after a deployment, given what was read about its generation.
abbrev described :
    IssuanceResult → DeploymentPaths → Result (Option GenerationDetails) → Certificate → Certificate
described result paths (err e) c = c
described result paths (ok details) c = record c {
  status = valid;
  expiry_date = some result.cert.expires_at;
  current_generation_id = paths.generation_id;
  current_generation_details = details;
}

-- The row after an attempt, from the row as it is being issued.
abbrev pub settled : Deployer → Attempt → Certificate → Certificate
settled deployer (issued result paths) c =
    described result paths (generation_details deployer paths) c
settled deployer (rejected e) c = record c { status = failed }
settled deployer (crashed e) c = c

module _ (deployer : Deployer) (hooks : Option Dispatcher) (scheduler : Option RenewalConfig) where
  completed :
      (id : ℕ) (result : IssuanceResult) (paths : DeploymentPaths)
      (read : Result (Option GenerationDetails)) (c : Certificate) (w : World)
      → get id w ≡ some c
      → c.status ≡ issuing
      → get id (complete_with hooks scheduler id result paths read w).1
        ≡ some (described result paths read c)
  unfolding complete
  completed id result paths (err e) c w h s = h
  completed id result paths (ok details) c w h s =
      let row = issued_row result paths details c in
      rw
        (
          h,
          complete,
          s,
          certificates-schedule_optional scheduler row _,
          certificates-dispatch hooks "certificate.issued" row,
        )
        (get-put_self (issued_row result paths details) (λ x. refl) id c w h)

  pub finish-settled :
      (id : ℕ) (attempt : Attempt) (c : Certificate) (w : World)
      → get id w ≡ some c
      → c.status ≡ issuing
      → get id (finish deployer hooks scheduler id attempt w).1 ≡ some (settled deployer attempt c)
  unfolding finish
  finish-settled id (issued result paths) c w h s =
      completed id result paths (generation_details deployer paths) c w h s
  finish-settled id (rejected e) c w h s =
      rw
        (h, mark_failed, s, certificates-dispatch hooks "certificate.failed" (with_status failed c))
        (get-put_self (with_status failed) (λ x. refl) id c w h)
  finish-settled id (crashed e) c w h s = h

module _ (settings : AppSettings) (backend : Backend) (deployer : Deployer)
    (hooks : Option Dispatcher) (scheduler : Option RenewalConfig) where
  -- Issuing a pending row leaves it as the outcome of the attempt says: valid with the new expiry
  -- date and generation, or failed. An error that is not caught, of the operating system, of the
  -- credentials file or of the description of the generation, leaves it in issuance.
  pub issue_settles :
      (c : Certificate) (w : World)
      → get c.id w ≡ some c
      → c.status ≡ pending
      → get c.id (issue_certificate settings backend deployer hooks scheduler c.id w).1
        ≡ some (
            settled deployer
              (attempt_issuance settings backend deployer (with_status issuing c) dns_01)
              (with_status issuing c))
  unfolding issue_certificate issue_and_deploy
  issue_settles c w h s =
      let attempt = attempt_issuance settings backend deployer (with_status issuing c) dns_01 in
      let written : get c.id (put c.id (with_status issuing) w) ≡ some (with_status issuing c) =
        get-put_self (with_status issuing) (λ x. refl) c.id c w h in
      rw (h, claim_pending, s)
        (finish-settled deployer hooks scheduler c.id attempt (with_status issuing c) _ written
          refl)
