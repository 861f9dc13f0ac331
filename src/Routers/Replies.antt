-- ===== src/Routers/Replies.antt =====
-- The answers of acme_api/routers/certificates.py: status codes, and the tasks that run after the
-- response.
use acme_api.Common.{ℕ, String, List, Bool, true, false}
use acme_api.Models.Certificate.{Certificate}
use acme_api.Models.Revocation.{Revocation}
use acme_api.Models.World.{
  World, Failure, lifecycle, conflict, unavailable, not_found, not_renewable, deployment, Result,
  ok, err,
}
use acme_api.Auth.Access.{AuthenticatedUser, Access, granted, unauthorized, forbidden}

-- `background_tasks.add_task` with a method of the service, or of the scheduler (`renew_task`).
pub data Task : Type 0 where
  issue_task issue_dns_persist_task issue_released_task renew_task : ℕ → Task

pub data Body : Type 0 where
  certificate : Certificate → Body
  certificates : List Certificate → Body
  revocation : Revocation → Body
  empty : Body

-- A response, an `HTTPException`, or an exception that no handler catches.
pub data Reply : Type 0 where
  replied : ℕ → Body → List Task → Reply
  refused : ℕ → String → Reply
  raised : Failure → Reply

abbrev pub Handler : Type 0
Handler = World → Reply × World

-- `Depends(require_...)`
abbrev pub with_user : Access → (AuthenticatedUser → Handler) → Handler
with_user (granted u) handler w = handler u w
with_user (unauthorized m) handler w = (refused 401 m, w)
with_user (forbidden m) handler w = (refused 403 m, w)

-- `_certificate_service`
abbrev pub with_service : Bool → Handler → Handler
with_service true handler w = handler w
with_service false handler w = (refused 503 "Certificate lifecycle service is not available.", w)

-- A check of the request itself, which FastAPI answers.
abbrev pub when_valid : Bool → Handler → Handler
when_valid true handler w = handler w
when_valid false handler w = (refused 422 "Input should be valid", w)

abbrev pub create_error : Failure → Reply
create_error (conflict m) = refused 409 m
create_error (unavailable m) = refused 503 m
create_error (lifecycle m) = refused 422 m
create_error (not_found m) = refused 422 m
create_error (not_renewable m) = refused 422 m
create_error (deployment m) = refused 422 m
create_error e = raised e

-- The `except` clauses that four handlers share.
abbrev pub lifecycle_error : Failure → Reply
lifecycle_error (not_found m) = refused 404 m
lifecycle_error (lifecycle m) = refused 409 m
lifecycle_error (conflict m) = refused 409 m
lifecycle_error (unavailable m) = refused 409 m
lifecycle_error (not_renewable m) = refused 409 m
lifecycle_error e = raised e

abbrev pub delete_error : Failure → Reply
delete_error (not_found m) = refused 404 "Certificate not found."
delete_error e = raised e

abbrev pub renew_error : Failure → Reply
renew_error (not_found m) = refused 404 "Certificate not found."
renew_error (not_renewable m) = refused 409 m
renew_error e = raised e

-- The answer of a method, as a reply.
abbrev pub reply_with :
    {A : Type 0} → (Failure → Reply) → (A → Reply) → Result A × World → Reply × World
reply_with on_error on_result (ok a, w) = (on_result a, w)
reply_with on_error on_result (err e, w) = (on_error e, w)
