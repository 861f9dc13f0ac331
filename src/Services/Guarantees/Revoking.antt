-- ===== src/Services/Guarantees/Revoking.antt =====
-- Revocations at the authority (acme_api/services/certificate_revocations.py): the lease, the
-- idempotency key, and what a failure shows.
use acme_api.Common.{
  ℕ, ◌+◌, String, Option, none, some, List, [], ◌∷◌, ◌≡◌, refl, ap, ◌∙◌, Bool, true, false, arith,
  Bool-cases, Option-cases, inl, inr, not_empty, if◌then◌else◌, ltb, number_eq, is_none,
}
use acme_api.Common.Table.{find_where, find, find-update_self}
use acme_api.Models.Certificate.{Certificate}
use acme_api.Models.Revocation.{Revocation, pending}
use acme_api.Models.World.{World, Result, ok, err, lifecycle}
use acme_api.Ports.Settings.{AppSettings, AcmeAccountConfig}
use acme_api.Ports.Backend.{Backend, RevokeRequest, Outcome}
use acme_api.Ports.Dispatcher.{Dispatcher}
use acme_api.Services.Accounts.{acme_account}
use acme_api.Services.Rows.{get}
use acme_api.Services.Revocations.{
  submit, for_domain, get_revocation, put_revocation, revocation_id, is_pending, leased,
  claim_revocation, same_key, Revoked, request_from, revoked_by, work, again, may_claim,
  new_revocation, attempt_revocation, attempt_with, request_revocation, conclude_revocation,
}

-- What a claim that took the lease found and wrote.
claim_took :
    (r : Revocation) (w : World)
    → get_revocation r.id w ≡ some r
    → (claim_revocation r.id w).0 ≡ true
    → (r.status ≡ pending)
      × (claim_revocation r.id w ≡ (true, put_revocation r.id (leased w.now) w))
unfolding claim_revocation
claim_took r w h t = elim (Bool-cases (may_claim w.now r)) [
  | inl g ↦ (ground arith, rw (claim_revocation, h, g) refl)
  | inr g ↦ absurd (ground arith)
]

claim_held :
    (id start : ℕ) (r : Revocation) (v : World)
    → get_revocation id v ≡ some (record r { attempt_started_at = some start })
    → r.status ≡ pending
    → claim_revocation id v ≡ (
        if ltb (start + 600) v.now
        then (true, put_revocation id (λ x. record x { attempt_started_at = some v.now }) v)
        else (false, v))
unfolding claim_revocation
claim_held id start r v h s = rw (h, claim_revocation) (ground arith)

-- After a worker has taken the lease of a revocation, be it free or one that has run out, the row
-- carries the time of that claim. Another claim, in any later world that has the same revocations,
-- succeeds exactly if more than ten minutes have passed since: it then writes its own time, and
-- leaves the world alone otherwise.
pub lease_exclusive :
    (r : Revocation) (w v : World)
    → get_revocation r.id w ≡ some r
    → (claim_revocation r.id w).0 ≡ true
    → v.revocations ≡ (claim_revocation r.id w).1.revocations
    → (get_revocation r.id v ≡ some (record r { attempt_started_at = some w.now }))
      × ((claim_revocation r.id v).0 ≡ ltb (w.now + 600) v.now)
      × ((claim_revocation r.id v).1 ≡ (
          if ltb (w.now + 600) v.now
          then put_revocation r.id (λ x. record x { attempt_started_at = some v.now }) v
          else v))
lease_exclusive r w v h t e =
    let (s, taken) = claim_took r w h t in
    let written : get_revocation r.id v ≡ some (record r { attempt_started_at = some w.now }) =
      ap (find revocation_id r.id) (e ∙ ap (λ (x : Bool × World). x.1.revocations) taken)
      ∙ find-update_self revocation_id (leased w.now) (λ x. refl) r.id w.revocations r h in
    rw (claim_held r.id w.now r v written s) (written, ground arith, ground arith)

module _ (attempt : Certificate → Revocation → Revoked) (hooks : Option Dispatcher) where
  submit_finished :
      (id : ℕ) (c : Certificate) (row r : Revocation) (reason : Option ℕ) (w : World)
      → find_where (same_key c.id row.idempotency_key) w.revocations ≡ some r
      → is_pending r.status ≡ false
      → submit attempt hooks id c row reason w ≡ (
        if number_eq r.reason reason
            then ok r
            else err (lifecycle "Idempotency key was already used with another revocation reason."),
        w,
      )
  submit_finished id c row r reason w f s = rw (f, submit, s) (ground arith)

  for_domain_finished :
      (id : ℕ) (c : Certificate) (domains : List String) (r : Revocation) (reason : Option ℕ)
      (actor : Option String) (w : World)
      → not_empty domains ≡ true
      → find_where (same_key c.id r.idempotency_key) w.revocations ≡ some r
      → is_pending r.status ≡ false
      → for_domain attempt hooks id c domains reason r.idempotency_key actor w ≡ (
        if number_eq r.reason reason
            then ok r
            else err (lifecycle "Idempotency key was already used with another revocation reason."),
        w,
      )
  for_domain_finished id c [] r reason actor w n f s = ground arith
  for_domain_finished id c (d ∷ ds) r reason actor w n f s = submit_finished id c _ r reason w f s

module _ (settings : AppSettings) (backend : Backend) (hooks : Option Dispatcher) where
  -- For an issued certificate with domains, repeating a request whose revocation has finished
  -- returns that revocation and changes nothing, whatever the backend would answer now; the same
  -- key with another reason is refused.
  pub revocation_replayed :
      (id : ℕ) (c : Certificate) (r : Revocation) (reason : Option ℕ) (actor : Option String)
      (w : World)
      → get c.id w ≡ some c
      → is_none c.expiry_date ≡ false
      → not_empty c.domains ≡ true
      → find_where (same_key c.id r.idempotency_key) w.revocations ≡ some r
      → is_pending r.status ≡ false
      → request_revocation settings backend hooks id c.id reason r.idempotency_key actor w ≡ (
        if number_eq r.reason reason
            then ok r
            else err (lifecycle "Idempotency key was already used with another revocation reason."),
        w,
      )
  unfolding request_revocation
  revocation_replayed id c r reason actor w h x d f s =
      rw (h, x)
        (for_domain_finished (attempt_revocation settings backend) hooks id c c.domains r reason
          actor w d f s)

-- Two outcomes of the same kind: of an error that the request catches, the texts may differ.
pub data AreAlike : Outcome (Unit {0}) → Outcome (Unit {0}) → Type 0 where
  both_ok : (a : Unit {0}) → AreAlike (Outcome.ok a) (Outcome.ok a)
  both_transient : (m n : String) → AreAlike (Outcome.transient m) (Outcome.transient n)
  both_terminal : (m n : String) → AreAlike (Outcome.terminal m) (Outcome.terminal n)
  both_os_error : (m n : String) → AreAlike (Outcome.os_error m) (Outcome.os_error n)
  both_broken : (m : String) → AreAlike (Outcome.value_error m) (Outcome.value_error m)

-- Two ways for the `try` block to end after which the request does the same.
module _ (one other : Certificate → Revocation → Revoked) (hooks : Option Dispatcher)
    (alike : (c : Certificate) (r : Revocation) (w : World)
      → conclude_revocation hooks c r (one c r) w
        ≡ conclude_revocation hooks c r (other c r) w) where
  same_work :
      (c : Certificate) (id : ℕ) (taken : Bool) (w : World)
      → work one hooks c id (taken, w) ≡ work other hooks c id (taken, w)
  unfolding work
  same_work c id taken w = elim (Option-cases (get_revocation id w)) [
    | inl e ↦ rw (work, e) refl
    | inr (r, e) ↦ rw (work, e, alike c r w) refl
  ]

  same_again :
      (c : Certificate) (reason : Option ℕ) (o : Option Revocation) (w : World)
      → again one hooks c reason o w ≡ again other hooks c reason o w
  same_again c reason none w = refl
  same_again c reason (some existing) w =
      let (taken, v) = claim_revocation existing.id w in rw (same_work c existing.id taken v) refl

  same_submit :
      (id : ℕ) (c : Certificate) (row : Revocation) (reason : Option ℕ) (w : World)
      → submit one hooks id c row reason w ≡ submit other hooks id c row reason w
  same_submit id c row reason w =
      elim (Option-cases (find_where (same_key c.id row.idempotency_key) w.revocations)) [
        | inl e ↦
            let (taken, v) = claim_revocation id (record w { revocations = row ∷ w.revocations }) in
            rw (submit, e) (same_work c id taken v)
        | inr (existing, e) ↦ rw (submit, e) (same_again c reason (some existing) w)
      ]

  same_for_domain :
      (id : ℕ) (c : Certificate) (domains : List String) (reason : Option ℕ) (key : String)
      (actor : Option String) (w : World)
      → for_domain one hooks id c domains reason key actor w
        ≡ for_domain other hooks id c domains reason key actor w
  same_for_domain id c [] reason key actor w = refl
  same_for_domain id c (d ∷ ds) reason key actor w =
      same_submit id c (new_revocation id c d reason key actor) reason w

  same_request :
      (id : ℕ) (o : Option Certificate) (reason : Option ℕ) (key : String) (actor : Option String)
      (w : World)
      → request_from one hooks id o reason key actor w
        ≡ request_from other hooks id o reason key actor w
  same_request id none reason key actor w = refl
  same_request id (some c) reason key actor w =
      rw (same_for_domain id c c.domains reason key actor w) refl

module _ (settings : AppSettings) (one other : Backend) (hooks : Option Dispatcher) where
  -- The text of the error is dropped on the way to the row, the event and the webhook.
  same_conclusion :
      (c : Certificate) (r : Revocation) (w : World) (o p : Outcome (Unit {0}))
      → AreAlike o p
      → conclude_revocation hooks c r (revoked_by o) w
        ≡ conclude_revocation hooks c r (revoked_by p) w
  unfolding conclude_revocation
  same_conclusion c r w o p (both_ok a) = refl
  same_conclusion c r w o p (both_transient m n) = refl
  same_conclusion c r w o p (both_terminal m n) = refl
  same_conclusion c r w o p (both_os_error m n) = refl
  same_conclusion c r w o p (both_broken m) = refl

  same_attempt :
      ((q : RevokeRequest) → AreAlike (one.revoke_certificate q) (other.revoke_certificate q))
      → (c : Certificate) (r : Revocation) (w : World)
      → conclude_revocation hooks c r (attempt_revocation settings one c r) w
        ≡ conclude_revocation hooks c r (attempt_revocation settings other c r) w
  unfolding attempt_revocation
  same_attempt same c r w = by_case (acme_account settings c.acme_account_ref)
    where
      by_case :
          (a : Result AcmeAccountConfig)
          → conclude_revocation hooks c r (attempt_with one c r a) w
            ≡ conclude_revocation hooks c r (attempt_with other c r a) w
      by_case (err e) = refl
      by_case (ok account) = same_conclusion c r w _ _ (same _)

  -- What a request answers and leaves behind depends on the backend only through the kind of its
  -- outcome: the text of an error of acme.sh or of the operating system, which may hold secrets,
  -- reaches neither the answer, nor the row, nor an event, nor a webhook.
  pub failure_hidden :
      ((q : RevokeRequest) → AreAlike (one.revoke_certificate q) (other.revoke_certificate q))
      → (id certificate_id : ℕ) (reason : Option ℕ) (key : String) (actor : Option String)
        (w : World)
      → request_revocation settings one hooks id certificate_id reason key actor w
        ≡ request_revocation settings other hooks id certificate_id reason key actor w
  unfolding request_revocation
  failure_hidden same id certificate_id reason key actor w =
      same_request (attempt_revocation settings one) (attempt_revocation settings other) hooks
        (same_attempt same) id (get certificate_id w) reason key actor w
