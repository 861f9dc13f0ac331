-- ===== src/Routers/Unchanged.antt =====
-- A refused request to acme_api/routers/certificates.py leaves the world as it was.
use acme_api.Common.{
  ℕ, String, Option, some, ◌≡◌, ◌≢◌, refl, ap, Bool, true, false, ◌⊎◌, inl, inr, arith, ◌&&◌, [],
  ◌∷◌,
}
use acme_api.Models.Certificate.{Certificate, valid}
use acme_api.Models.World.{World, Failure, overflow, Result, ok, err, Action}
use acme_api.Models.Audit.{text}
use acme_api.Auth.Access.{AuthenticatedUser}
use acme_api.Services.Rows.{get, record_event}
use acme_api.Services.Requests.{CertificateCreate, create_certificate}
use acme_api.Services.Holds.{authorize, release}
use acme_api.Services.Retirement.{revoke_certificate, request_manual_renewal}
use acme_api.Services.Revocations.{request_revocation, attempt_revocation}
use acme_api.Services.Selection.{select_deployment_generation}
use acme_api.Schemas.Domains.{Validated}
use acme_api.Schemas.Domains
use acme_api.Schemas.Bodies.{
  validate_create, validate_reason, is_idempotency_key, is_revision, is_generation_id,
}
use acme_api.Routers.Replies.{
  Reply, refused, Handler, reply_with, with_service, when_valid, create_error, lifecycle_error,
  delete_error, renew_error, issue_dns_persist_task, issue_released_task,
}
use acme_api.Routers.Certificates.{
  App, Call, create, authorize_issuance, release_held, select_generation, revoke_at_ca, delete,
  renew, created, started, queued, perform, create_body, revoke_body,
}
use acme_api.Routers.Refusals.{
  authorize_clean, release_clean, delete_clean, renew_clean, create_clean, select_clean,
}
use acme_api.Routers.RevokeErrors.{Escapes, request_clean}

-- A refusal comes from an error of the method.
refused_by_error :
    {A : Type 0} (on_error : Failure → Reply) (on_result : A → Reply) (r : Result A × World)
    (status : ℕ) (m : String) (w' : World)
    → ((a : A) (status : ℕ) (m : String) → on_result a ≢ refused status m)
    → reply_with on_error on_result r ≡ (refused status m, w')
    → (e : Failure) × (r ≡ (err e, w')) × (on_error e ≡ refused status m)
refused_by_error on_error on_result (ok a, w) status m w' never h =
    absurd (never a status m (ap (λ (x : Reply × World). x.0) h))
refused_by_error on_error on_result (err e, w) status m w' never h =
    (e, ap (λ (x : Reply × World). (err e, x.1)) h, ap (λ (x : Reply × World). x.0) h)

module _ (status : ℕ) (m : String) (w w' : World) where
  serve :
      (b : Bool) (handler : Handler)
      → (handler w ≡ (refused status m, w') → w' ≡ w)
      → with_service b handler w ≡ (refused status m, w')
      → w' ≡ w
  serve true handler h e = h e
  serve false handler h e = ground arith

  checked :
      (b : Bool) (handler : Handler)
      → (handler w ≡ (refused status m, w') → w' ≡ w)
      → when_valid b handler w ≡ (refused status m, w')
      → w' ≡ w
  checked true handler h e = h e
  checked false handler h e = ground arith

  -- A method that raises clean, and whose results are no refusals.
  clean_reply :
      {A : Type 0} (on_error : Failure → Reply) (on_result : A → Reply) (action : Action A)
      → ((a : A) (status : ℕ) (m : String) → on_result a ≢ refused status m)
      → ((e : Failure) → action w ≡ (err e, w') → on_error e ≡ refused status m → w' ≡ w)
      → reply_with on_error on_result (action w) ≡ (refused status m, w')
      → w' ≡ w
  clean_reply on_error on_result action never clean h =
      let (e, q, r) = refused_by_error on_error on_result (action w) status m w' never h in
      clean e q r

  escaped : (e : Failure) → (w' ≡ w) ⊎ Escapes e → lifecycle_error e ≡ refused status m → w' ≡ w
  escaped e (inl p) h = p
  escaped e (inr p) h = absurd (ground arith)

  overflown :
      (e : Failure) → (w' ≡ w) ⊎ (e ≡ overflow) → lifecycle_error e ≡ refused status m → w' ≡ w
  overflown e (inl p) h = p
  overflown e (inr p) h =
      let q : lifecycle_error overflow ≡ refused status m = rw p at h in absurd (ground arith)

  module _ (app : App) (u : AuthenticatedUser) (scheduled : app.has_scheduler ≡ true) where
    never_queued :
        (b : Bool)
        → b ≡ true
        → (c : Certificate) (status : ℕ) (m : String) → queued b c ≢ refused status m
    never_queued true e c status m h = ground arith
    never_queued false e c status m h = ground arith

    create_body_clean :
        (id : ℕ) (v : Validated CertificateCreate)
        → create_body app id v w ≡ (refused status m, w')
        → w' ≡ w
    create_body_clean id (Domains.invalid x) h = ground arith
    create_body_clean id (Domains.valid p) h =
        serve app.has_service _
          (clean_reply create_error created
            (create_certificate app.settings app.backend app.hooks id p) (λ c s x e. ground arith)
            (λ e q r. create_clean app.settings app.backend app.hooks id p w e w' q))
          h

    revoke_body_clean :
        (new id : ℕ) (v : Validated (Option ℕ)) (key : String)
        → revoke_body app new id v key u w ≡ (refused status m, w')
        → w' ≡ w
    revoke_body_clean new id (Domains.invalid x) key h = ground arith
    revoke_body_clean new id (Domains.valid reason) key h =
        serve app.has_service _
          (clean_reply lifecycle_error _
            (request_revocation app.settings app.backend app.hooks new id reason key (some u.name))
            (λ c s x e. ground arith)
            (λ e q r.
              escaped e
                (request_clean (attempt_revocation app.settings app.backend) app.hooks new
                  (get id w) reason key (some u.name) w w' e (unfold request_revocation in q))
                r))
          h

    -- An authorised request that is refused, with whatever status, has changed nothing, where the
    -- renewal scheduler runs.
    pub refused_unchanged : (call : Call) → perform app u call w ≡ (refused status m, w') → w' ≡ w
    unfolding perform
    refused_unchanged (create id p) h = create_body_clean id (validate_create app.repr p) h
    refused_unchanged (authorize_issuance id) h =
        serve app.has_service _
          (clean_reply lifecycle_error (started issue_dns_persist_task) (authorize id)
            (λ c s x e. ground arith) (λ e q r. authorize_clean id w e w' q))
          h
    refused_unchanged (release_held id revision key) h =
        checked (is_revision revision && is_idempotency_key key) _
          (serve app.has_service _ (
            clean_reply lifecycle_error (started issue_released_task) (release id revision key)
              (λ c s x e. ground arith) (λ e q r. release_clean id revision key w e w' q)))
          h
    refused_unchanged (select_generation id generation key) h =
        checked (is_generation_id generation && is_idempotency_key key) _
          (serve app.has_service _ (
            clean_reply lifecycle_error _
              (select_deployment_generation app.settings app.deployer app.scheduler app.repr id
                generation key)
              (λ c s x e. ground arith)
              (λ e q r.
                overflown e
                  (select_clean app.settings app.deployer app.scheduler app.repr id generation key w
                    w' e q)
                  r)))
          h
    refused_unchanged (revoke_at_ca new id reason key) h =
        checked (is_idempotency_key key) _ (revoke_body_clean new id (validate_reason reason) key) h
    refused_unchanged (delete id) h =
        serve app.has_service _
          (clean_reply delete_error _ (revoke_certificate app.hooks app.jobs id)
            (λ c s x e. ground arith) (λ e q r. delete_clean app.hooks app.jobs id w e w' q))
          h
    refused_unchanged (renew id) h =
        serve app.has_service _
          (clean_reply renew_error (queued app.has_scheduler) (request_manual_renewal id)
            (never_queued app.has_scheduler scheduled) (λ e q r. renew_clean id w e w' q))
          h

-- Where no renewal scheduler runs, the request of a manual renewal of a valid certificate is
-- refused with status 503, and yet records that a renewal was requested.
renewal_unavailable :
    (app : App) (u : AuthenticatedUser) (id : ℕ) (c : Certificate) (w : World)
    → app.has_service ≡ true
    → app.has_scheduler ≡ false
    → get id w ≡ some c
    → c.status ≡ valid
    → perform app u (renew id) w ≡ (
      refused 503 "Renewal scheduler is not available.",
      record_event id "certificate.renewal_requested" (("name", text c.name) ∷ []) w,
    )
unfolding perform request_manual_renewal
renewal_unavailable app u id c w service scheduler h s =
    rw (service, request_manual_renewal, h, s, scheduler) refl
