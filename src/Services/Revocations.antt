-- ===== src/Services/Revocations.antt =====
-- acme_api/services/certificate_revocations.py: revoking a certificate at the authority, once for
-- each idempotency key, under a lease that a dead worker loses.
use acme_api.Common.{
  ℕ, ◌+◌, String, Option, none, some, List, [], ◌∷◌, Bool, true, false, ◌&&◌, ◌==◌, ltb, str_eq,
  if◌then◌else◌, number_eq, not, is_none,
}
use acme_api.Common.Table.{find, update, find_where}
use acme_api.Models.Audit.{Value, text, number, null}
use acme_api.Models.Certificate.{Certificate}
use acme_api.Models.Revocation.{RevocationStatus, pending, succeeded, failed, Revocation}
use acme_api.Models.World.{
  World, Failure, deployment, value_error, lifecycle, not_found, integrity, index_error, Result, ok,
  err, Action,
}
use acme_api.Ports.Settings.{AppSettings, AcmeAccountConfig}
use acme_api.Ports.Backend.{Backend, Outcome}
use acme_api.Ports.Dispatcher.{Dispatcher, dispatch_webhook}
use acme_api.Services.Accounts.{acme_account}
use acme_api.Services.Rows.{get, record_event}

abbrev pub revocation_lease : ℕ
revocation_lease = 600

abbrev pub revocation_id : Revocation → ℕ
revocation_id r = r.id

-- `session.get` and an update by primary key, on the table of revocations.
abbrev pub get_revocation : ℕ → World → Option Revocation
get_revocation id w = find revocation_id id w.revocations

abbrev pub put_revocation : ℕ → (Revocation → Revocation) → World → World
put_revocation id f w = record w { revocations = update revocation_id id f w.revocations }

abbrev pub is_pending : RevocationStatus → Bool
is_pending pending = true
is_pending _ = false

-- What the request catches, besides success, each with the text of the error: of the look-up of the
-- account, of the process, and of acme.sh.
pub data RevokeError : Type 0 where
  account_error os_failure transient_failure terminal_failure : String → RevokeError

-- How the `try` block ends; `broken` is an error that it does not catch.
pub data Revoked : Type 0 where
  accepted : Revoked
  refused : RevokeError → Revoked
  broken : String → Revoked

-- `_public_failure_detail`
abbrev pub public_failure_detail : RevokeError → String
public_failure_detail (account_error m) = "The configured ACME account is unavailable."
public_failure_detail (os_failure m) = "acme.sh could not be executed."
public_failure_detail (transient_failure m) = "acme.sh reported a retryable revocation failure."
public_failure_detail (terminal_failure m) = "acme.sh reported a terminal revocation failure."

abbrev pub failure_category : RevokeError → String
failure_category (transient_failure m) = "transient"
failure_category _ = "terminal"

abbrev pub revoked_by : Outcome (Unit {0}) → Revoked
revoked_by (Outcome.ok _) = accepted
revoked_by (Outcome.transient m) = refused (transient_failure m)
revoked_by (Outcome.terminal m) = refused (terminal_failure m)
revoked_by (Outcome.os_error m) = refused (os_failure m)
revoked_by (Outcome.value_error m) = broken m

-- The look-up of the account raises a `DeploymentError`.
abbrev lookup_text : Failure → String
lookup_text (deployment m) = m
lookup_text _ = ""

abbrev pub new_revocation :
    ℕ → Certificate → String → Option ℕ → String → Option String → Revocation
new_revocation id c domain reason key actor = record {
  id = id;
  certificate_id = c.id;
  domain = domain;
  reason = reason;
  idempotency_key = key;
  actor = actor;
  status = pending;
  error_category = none;
  error_details = none;
  attempt_started_at = none;
  completed_at = none;
}

-- The unique constraint of the table.
abbrev pub same_key : ℕ → String → Revocation → Bool
same_key certificate_id key r = (r.certificate_id == certificate_id) && str_eq r.idempotency_key key

abbrev lease_free : ℕ → Option ℕ → Bool
lease_free now none = true
lease_free now (some started) = ltb (started + revocation_lease) now

abbrev pub may_claim : ℕ → Revocation → Bool
may_claim now r = is_pending r.status && lease_free now r.attempt_started_at

abbrev pub leased : ℕ → Revocation → Revocation
leased now r = record r { attempt_started_at = some now }

-- `_claim_pending_revocation`: whether the lease was taken.
unfoldable pub claim_revocation : ℕ → World → Bool × World
claim_revocation id w = elim (get_revocation id w) [
  | none ↦ (false, w)
  | some r ↦ if may_claim w.now r then (true, put_revocation id (leased w.now) w) else (false, w)
]

-- What the attributes set on the loaded row become in the table.
abbrev pub failed_row : ℕ → RevokeError → Revocation → Revocation
failed_row now error r = record r {
  status = failed;
  error_category = some (failure_category error);
  error_details = some (public_failure_detail error);
  completed_at = some now;
}

abbrev pub succeeded_row : ℕ → Revocation → Revocation
succeeded_row now r = record r { status = succeeded; completed_at = some now }

abbrev reason_value : Option ℕ → Value
reason_value none = null
reason_value (some n) = number n

abbrev actor_value : Option String → Value
actor_value none = null
actor_value (some s) = text s

module _ (hooks : Option Dispatcher) where
  -- What follows the call of the backend, on the rows as the task holds them.
  unfoldable pub conclude_revocation : Certificate → Revocation → Revoked → Action Revocation
  conclude_revocation c r (refused error) w = (
    ok (failed_row w.now error r),
    dispatch_webhook hooks "certificate.revocation_failed" c (
        record_event c.id "certificate.revocation_failed"
          (("domain", text r.domain) ∷ ("category", text (failure_category error)) ∷ [])
          (put_revocation r.id (failed_row w.now error) w)),
  )
  conclude_revocation c r (broken m) w = (err (value_error m), w)
  conclude_revocation c r accepted w = (
    ok (succeeded_row w.now r),
    dispatch_webhook hooks "certificate.revoked_at_ca" c (
        record_event c.id "certificate.revoked_at_ca"
          (("domain", text r.domain)
            ∷ ("reason", reason_value r.reason)
            ∷ ("actor", actor_value r.actor)
            ∷ [])
          (put_revocation r.id (succeeded_row w.now) w)),
  )

module _ (backend : Backend) where
  abbrev pub attempt_with : Certificate → Revocation → Result AcmeAccountConfig → Revoked
  attempt_with c r (err e) = refused (account_error (lookup_text e))
  attempt_with c r (ok account) = revoked_by (
      backend.revoke_certificate (record {
        domain = r.domain;
        reason = r.reason;
        key_algorithm = c.key_algorithm;
        account_key_path = account.account_key_path;
        server_url = account.server_url;
      }))

-- The `try` block around the backend.
unfoldable pub attempt_revocation : AppSettings → Backend → Certificate → Revocation → Revoked
unfolding acme_account
attempt_revocation settings backend c r =
    attempt_with backend c r (acme_account settings c.acme_account_ref)

-- The request, for what the `try` block answers.
module _ (attempt : Certificate → Revocation → Revoked) (hooks : Option Dispatcher) where
  -- The row after the claim, read afresh: worked on if the claim took the lease.
  unfoldable pub work : Certificate → ℕ → Bool × World → Result Revocation × World
  unfolding conclude_revocation
  work c id (taken, w) = elim (get_revocation id w) [
    | none ↦ (err (integrity "row has disappeared"), w)
    | some r ↦
        let concluded = conclude_revocation hooks c r (attempt c r) w in
        if taken then concluded else (ok r, w)
  ]

  -- The request that the unique constraint found.
  abbrev pub again : Certificate → Option ℕ → Option Revocation → Action Revocation
  again c reason none w = (err (integrity "unique constraint"), w)
  again c reason (some existing) w =
      let worked = work c existing.id (claim_revocation existing.id w) in
      if not (number_eq existing.reason reason)
      then (err (lifecycle "Idempotency key was already used with another revocation reason."), w)
      else if not (is_pending existing.status)
      then (ok existing, w)
      else worked

  abbrev pub submit : ℕ → Certificate → Revocation → Option ℕ → Action Revocation
  submit id c row reason w = elim (find_where (same_key c.id row.idempotency_key) w.revocations) [
    | some existing ↦ again c reason (some existing) w
    | none ↦ work c id (claim_revocation id (record w { revocations = row ∷ w.revocations }))
  ]

  abbrev pub for_domain :
      ℕ → Certificate → List String → Option ℕ → String → Option String → Action Revocation
  for_domain id c [] reason key actor w = (err index_error, w)
  for_domain id c (domain ∷ rest) reason key actor w =
      submit id c (new_revocation id c domain reason key actor) reason w

  abbrev pub request_from :
      ℕ → Option Certificate → Option ℕ → String → Option String → Action Revocation
  request_from id none reason key actor w = (err (not_found "Certificate not found."), w)
  request_from id (some c) reason key actor w =
      if is_none c.expiry_date
      then (err (lifecycle "Certificate has not been issued and cannot be revoked."), w)
      else for_domain id c c.domains reason key actor w

module _ (settings : AppSettings) (backend : Backend) (hooks : Option Dispatcher) where
  -- `request_certificate_revocation`; `id` is the UUID that a new row gets.
  unfoldable pub request_revocation : ℕ → ℕ → Option ℕ → String → Option String → Action Revocation
  unfolding work claim_revocation
  request_revocation id certificate_id reason key actor w =
      request_from (attempt_revocation settings backend) hooks id (get certificate_id w) reason key
        actor w
