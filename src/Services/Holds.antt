-- ===== src/Services/Holds.antt =====
-- The held DNS Persist workflow of acme_api/services/certificates.py: authorising a request, and
-- releasing a held one exactly once.
use acme_api.Common.{
  ℕ, ◌+◌, String, Option, none, some, [], ◌∷◌, Bool, true, false, not, ◌&&◌, ◌||◌, ◌==◌, is_none,
  holds_text, if◌then◌else◌,
}
use acme_api.Models.Certificate.{
  Status, pending_dns, held, authorization_ready, released, issuing, failed, same_status,
  dns_persist, same_method, Certificate,
}
use acme_api.Models.Audit.{number}
use acme_api.Models.World.{lifecycle, not_found, Result, ok, err, Action}
use acme_api.Services.Rows.{get, put, record_event, with_status}

-- The answer after an update that matched no row: the row as it is now, and nothing to start.
abbrev unchanged : Option Certificate → Result (Certificate × Bool)
unchanged none = err (not_found "Certificate not found.")
unchanged (some now) = ok (now, false)

abbrev pub ready_row : Certificate → Certificate
ready_row c = record c { status = authorization_ready; revision = c.revision + 1 }

-- The update of a held row, guarded by the status and the revision that were read.
unfoldable pub mark_ready : Certificate → ℕ → Action (Certificate × Bool)
mark_ready seen id w = elim (get id w) [
  | none ↦ (unchanged none, w)
  | some c ↦
      if same_status c.status held && (c.revision == seen.revision)
      then (
        ok (ready_row c, false),
        record_event id "certificate.authorization_ready" [] (put id ready_row w),
      )
      else (unchanged (some c), w)
]

abbrev pub awaits_dns : Status → Bool
awaits_dns s = same_status s pending_dns || same_status s failed

unfoldable pub request_issuance : ℕ → Action (Certificate × Bool)
request_issuance id w = elim (get id w) [
  | none ↦ (unchanged none, w)
  | some c ↦
      if awaits_dns c.status
      then (
        ok (with_status issuing c, true),
        record_event id "certificate.authorization_requested" [] (put id (with_status issuing) w),
      )
      else (unchanged (some c), w)
]

unfoldable pub authorize_from : Option Certificate → ℕ → Action (Certificate × Bool)
unfolding mark_ready request_issuance
authorize_from none id w = (err (not_found "Certificate not found."), w)
authorize_from (some seen) id w =
    if not (same_method seen.challenge_method dns_persist)
    then (err (lifecycle "Certificate does not use DNS Persist."), w)
    else if same_status seen.status held
    then mark_ready seen id w
    else if not (awaits_dns seen.status)
    then (ok (seen, false), w)
    else request_issuance id w

-- `authorize_dns_persist_certificate`: the flag says that issuance starts.
unfoldable pub authorize : ℕ → Action (Certificate × Bool)
unfolding authorize_from
authorize id w = authorize_from (get id w) id w

abbrev pub releasable : Status → Bool
releasable s = same_status s held || same_status s authorization_ready

abbrev pub released_row : String → Certificate → Certificate
released_row key c = record c {
  status = released;
  revision = c.revision + 1;
  release_idempotency_key = some key;
}

-- The answer to a call whose key the row holds already.
abbrev pub replayed : Certificate → Certificate × Bool
replayed c = (c, same_status c.status released)

-- The condition of the guarded update.
abbrev pub may_release : ℕ → Certificate → Bool
may_release revision c =
    (c.revision == revision) && is_none c.release_idempotency_key && releasable c.status

unfoldable pub release_current : ℕ → ℕ → String → Action (Certificate × Bool)
release_current id revision key w = elim (get id w) [
  | none ↦ (err (not_found "Certificate not found."), w)
  | some c ↦
      if may_release revision c
      then (
        ok (released_row key c, true),
        record_event id "certificate.released" (("revision", number revision) ∷ [])
            (put id (released_row key) w),
      )
      else if holds_text c.release_idempotency_key key
      then (ok (replayed c), w)
      else (err (lifecycle "Certificate revision is stale or cannot be released."), w)
]

unfoldable pub release_from : Option Certificate → ℕ → ℕ → String → Action (Certificate × Bool)
unfolding release_current
release_from none id revision key w = (err (not_found "Certificate not found."), w)
release_from (some seen) id revision key w =
    if not (same_method seen.challenge_method dns_persist)
    then (err (lifecycle "Certificate does not use DNS Persist."), w)
    else if holds_text seen.release_idempotency_key key
    then (ok (replayed seen), w)
    else release_current id revision key w

-- `release_held_dns_persist_certificate`: the flag says that issuance starts.
unfoldable pub release : ℕ → ℕ → String → Action (Certificate × Bool)
unfolding release_from
release id revision key w = release_from (get id w) id revision key w
