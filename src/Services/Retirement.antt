-- ===== src/Services/Retirement.antt =====
-- acme_api/services/certificate_lifecycle_operations.py: the soft delete, and the request of a
-- manual renewal.
use acme_api.Common.{
  ℕ, String, Option, none, some, [], ◌∷◌, Bool, not, is_none, ltb, ◌&&◌, ◌||◌, if◌then◌else◌,
}
use acme_api.Models.Certificate.{
  Status, held, authorization_ready, cancelled, released, issuing, revoked, valid, same_status,
  Certificate,
}
use acme_api.Models.Audit.{text}
use acme_api.Models.World.{World, not_found, not_renewable, ok, err, Action}
use acme_api.Ports.Dispatcher.{Dispatcher, dispatch_webhook}
use acme_api.Ports.Jobs.{JobStore}
use acme_api.Scheduler.Schedule.{remove_certificate}
use acme_api.Services.Rows.{get, record_event, with_status, assign_status}

-- Whether deleting the row cancels a held request.
abbrev pub held_request : Certificate → Bool
held_request c =
    (same_status c.status held
      || same_status c.status authorization_ready
      || same_status c.status cancelled)
    || (same_status c.status released && ltb 0 c.revision)
    || (same_status c.status issuing && not (is_none c.release_idempotency_key))

abbrev pub retired_status : Certificate → Status
retired_status c = if held_request c then cancelled else revoked

abbrev retired_event : Certificate → String
retired_event c = if held_request c then "certificate.cancelled" else "certificate.revoked"

-- `remove_certificate` of the scheduler, which is optional in the service.
abbrev pub remove_jobs : Option JobStore → ℕ → World → World
remove_jobs none id w = w
remove_jobs (some store) id w = remove_certificate store id w

module _ (hooks : Option Dispatcher) (scheduler : Option JobStore) where
  -- What follows the read of the row, which may be stale.
  unfoldable pub revoke_from : Option Certificate → ℕ → Action (Unit {0})
  unfolding remove_certificate
  revoke_from none id w = (err (not_found "Certificate not found."), w)
  revoke_from (some c) id w = (
    ok tt,
    remove_jobs scheduler id (
        dispatch_webhook hooks (retired_event c) (with_status (retired_status c) c) (
          record_event id (retired_event c) (("name", text c.name) ∷ [])
            (assign_status id c.status (retired_status c) w))),
  )

  unfoldable pub revoke_certificate : ℕ → Action (Unit {0})
  unfolding revoke_from
  revoke_certificate id w = revoke_from (get id w) id w

unfoldable pub request_manual_renewal : ℕ → Action Certificate
request_manual_renewal id w = elim (get id w) [
  | none ↦ (err (not_found "Certificate not found."), w)
  | some c ↦
      if same_status c.status valid
      then (ok c, record_event id "certificate.renewal_requested" (("name", text c.name) ∷ []) w)
      else (err (not_renewable "Certificate is not renewable."), w)
]
