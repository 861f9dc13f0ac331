-- ===== src/Routers/Certificates.antt =====
-- The handlers of acme_api/routers/certificates.py.
use acme_api.Common.{
  ℕ, suc, zero, String, Option, none, some, List, [], ◌∷◌, Bool, true, false, ◌&&◌, leb,
  if◌then◌else◌,
}
use acme_api.Models.Certificate.{Certificate, Status, pending, same_status}
use acme_api.Ports.Settings.{AppSettings, RenewalConfig}
use acme_api.Ports.Backend.{Backend}
use acme_api.Ports.Deployer.{Deployer}
use acme_api.Ports.Dispatcher.{Dispatcher}
use acme_api.Ports.Jobs.{JobStore}
use acme_api.Auth.Keys.{ApiKey, Digests, text_length}
use acme_api.Auth.Access.{AuthenticatedUser, require_operator, require_readonly}
use acme_api.Scheduler.Renewal.{RenewalDeploymentConfig}
use acme_api.Services.Rows.{get}
use acme_api.Services.Requests.{CertificateCreate, create_certificate}
use acme_api.Services.Holds.{authorize, release}
use acme_api.Services.Retirement.{revoke_certificate, request_manual_renewal}
use acme_api.Services.Selection.{select_deployment_generation}
use acme_api.Services.Revocations.{request_revocation}
use acme_api.Schemas.Domains.{Validated, valid, invalid}
use acme_api.Schemas.Bodies.{
  validate_create, validate_reason, is_idempotency_key, is_revision, is_generation_id,
}
use acme_api.Routers.Replies.{
  Task, issue_task, issue_dns_persist_task, issue_released_task, renew_task, certificate,
  certificates, revocation, empty, Reply, replied, refused, Handler, with_user, with_service,
  when_valid, create_error, lifecycle_error, delete_error, renew_error, reply_with,
}

-- What the handlers find in the state of the application, and the parts that their methods use. The
-- renewal scheduler may be missing; the service may be missing.
pub record App : Type 0 where
  pub has_service : Bool
  pub has_scheduler : Bool
  pub settings : AppSettings
  pub backend : Backend
  pub deployer : Deployer
  pub hooks : Option Dispatcher
  pub scheduler : Option RenewalConfig
  pub jobs : Option JobStore
  pub renewal_deployment : Option RenewalDeploymentConfig
  pub digests : Digests
  pub repr : String → String

-- The requests that change something. A new row gets the UUID that stands first.
pub data Call : Type 0 where
  create : ℕ → CertificateCreate → Call
  authorize_issuance : ℕ → Call
  release_held : ℕ → (revision : ℕ) → (key : String) → Call
  select_generation : ℕ → (generation : String) → (key : String) → Call
  revoke_at_ca : ℕ → ℕ → (reason : Option ℕ) → (key : String) → Call
  delete : ℕ → Call
  renew : ℕ → Call

abbrev pub task_if : Bool → Task → List Task
task_if true task = task ∷ []
task_if false task = []

abbrev pub created : Certificate → Reply
created c = replied 202 (certificate c) (task_if (same_status c.status pending) (issue_task c.id))

abbrev pub started : (ℕ → Task) → Certificate × Bool → Reply
started task (c, starts) = replied 202 (certificate c) (task_if starts (task c.id))

abbrev pub queued : Bool → Certificate → Reply
queued true c = replied 202 (certificate c) (renew_task c.id ∷ [])
queued false c = refused 503 "Renewal scheduler is not available."

module _ (app : App) where
  abbrev pub create_body : ℕ → Validated CertificateCreate → Handler
  create_body id (invalid m) w = (refused 422 m, w)
  create_body id (valid p) w =
      with_service app.has_service
        (λ w'.
          reply_with create_error created
            (create_certificate app.settings app.backend app.hooks id p w'))
        w

  abbrev pub revoke_body : ℕ → ℕ → Validated (Option ℕ) → String → AuthenticatedUser → Handler
  revoke_body new id (invalid m) key actor w = (refused 422 m, w)
  revoke_body new id (valid reason) key actor w =
      with_service app.has_service
        (λ w'.
          reply_with lifecycle_error (λ r. replied 200 (revocation r) [])
            (request_revocation app.settings app.backend app.hooks new id reason key
              (some actor.name) w'))
        w

  -- A handler, after the role has been checked.
  unfoldable pub perform : AuthenticatedUser → Call → Handler
  unfolding validate_create validate_reason create_certificate authorize release
      select_deployment_generation request_revocation revoke_certificate request_manual_renewal
  perform actor (create id p) w = create_body id (validate_create app.repr p) w
  perform actor (authorize_issuance id) w =
      with_service app.has_service
        (λ w'. reply_with lifecycle_error (started issue_dns_persist_task) (authorize id w')) w
  perform actor (release_held id revision key) w =
      when_valid (is_revision revision && is_idempotency_key key)
        (with_service app.has_service λ w'.
          reply_with lifecycle_error (started issue_released_task) (release id revision key w'))
        w
  perform actor (select_generation id generation key) w =
      when_valid (is_generation_id generation && is_idempotency_key key)
        (with_service app.has_service λ w'.
          reply_with lifecycle_error (λ c. replied 200 (certificate c) [])
            (select_deployment_generation app.settings app.deployer app.scheduler app.repr id
              generation key w'))
        w
  perform actor (revoke_at_ca new id reason key) w =
      when_valid (is_idempotency_key key) (revoke_body new id (validate_reason reason) key actor) w
  perform actor (delete id) w =
      with_service app.has_service
        (λ w'.
          reply_with delete_error (λ _. replied 204 empty [])
            (revoke_certificate app.hooks app.jobs id w'))
        w
  perform actor (renew id) w =
      with_service app.has_service
        (λ w'. reply_with renew_error (queued app.has_scheduler) (request_manual_renewal id w')) w

  -- A request with its header "authorization", given the rows of the API keys.
  unfoldable pub handle : List ApiKey → Option String → Call → Handler
  unfolding perform require_operator
  handle keys header call w =
      with_user (require_operator app.digests keys w.now header) (λ u. perform u call) w

-- `offset(n)` and `limit(n)`
abbrev pub skip : {A : Type 0} → ℕ → List A → List A
skip zero xs = xs
skip (suc n) [] = []
skip (suc n) (x ∷ xs) = skip n xs

abbrev pub take : {A : Type 0} → ℕ → List A → List A
take zero xs = []
take (suc n) [] = []
take (suc n) (x ∷ xs) = x ∷ take n xs

abbrev pub filter : {A : Type 0} → (A → Bool) → List A → List A
filter test [] = []
filter test (x ∷ xs) = let rest = filter test xs in if test x then x ∷ rest else rest

-- `contains` is the database's test for a text in the JSON column of domains.
abbrev pub is_listed :
    (String → List String → Bool) → Option Status → Option String → Certificate → Bool
is_listed contains none none c = true
is_listed contains (some s) none c = same_status c.status s
is_listed contains none (some d) c = contains d c.domains
is_listed contains (some s) (some d) c = same_status c.status s && contains d c.domains

abbrev has_text : Option String → Bool
has_text none = true
has_text (some s) = leb 1 (text_length s)

module _ (digests : Digests) (contains : String → List String → Bool) where
  -- The rows come latest first, as they were created.
  unfoldable pub list_certificates :
      List ApiKey → Option String → (offset limit : ℕ) → Option Status → Option String → Handler
  unfolding require_readonly
  list_certificates keys header offset limit status domain w =
      with_user (require_readonly digests keys w.now header)
        (λ _. when_valid (leb 1 limit && leb limit 500 && has_text domain) λ w'. (
          replied 200
              (certificates (
                take limit
                  (skip offset (filter (is_listed contains status domain) w'.certificates))))
              [],
          w',
        ))
        w

abbrev detail : Option Certificate → Reply
detail none = refused 404 "Certificate not found."
detail (some c) = replied 200 (certificate c) []

unfoldable pub get_certificate : Digests → List ApiKey → Option String → ℕ → Handler
unfolding require_readonly
get_certificate digests keys header id w =
    with_user (require_readonly digests keys w.now header) (λ _ w'. (detail (get id w'), w')) w
