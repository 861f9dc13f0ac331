-- ===== src/Routers/RevokeErrors.antt =====
-- Errors of a revocation at the authority (acme_api/services/certificate_revocations.py) that leave
-- the world as it was.
use acme_api.Common.{
  ℕ, String, Option, none, some, List, ◌≡◌, Bool, ◌⊎◌, inl, inr, arith, Bool-cases, Option-cases,
  not, number_eq, is_none, [], ◌∷◌,
}
use acme_api.Common.Table.{find_where}
use acme_api.Models.Certificate.{Certificate}
use acme_api.Models.Revocation.{Revocation}
use acme_api.Models.World.{World, Failure, err}
use acme_api.Ports.Dispatcher.{Dispatcher}
use acme_api.Services.Revocations.{
  Revoked, conclude_revocation, work, submit, again, for_domain, request_from, claim_revocation,
  is_pending, same_key, new_revocation,
}
use acme_api.Routers.Replies.{raised, lifecycle_error}

-- An error of the database, which no handler catches.
abbrev pub Escapes : Failure → Type 0
Escapes e = lifecycle_error e ≡ raised e

module _ (attempt : Certificate → Revocation → Revoked) (hooks : Option Dispatcher) where
  concluded :
      (c : Certificate) (r : Revocation) (x : Revoked) (w w' : World) (e : Failure)
      → conclude_revocation hooks c r x w ≡ (err e, w')
      → Escapes e
  unfolding conclude_revocation
  concluded c r Revoked.accepted w w' e h = absurd (ground arith)
  concluded c r (Revoked.refused x) w w' e h = absurd (ground arith)
  concluded c r (Revoked.broken x) w w' e h = ground arith

  worked :
      (c : Certificate) (id : ℕ) (taken : Bool) (w w' : World) (e : Failure)
      → work attempt hooks c id (taken, w) ≡ (err e, w')
      → Escapes e
  unfolding work
  worked c id taken w w' e h =
      ground (arith, λ (r : Revocation). concluded c r (attempt c r) w w' e)

  again_clean :
      (c : Certificate) (reason : Option ℕ) (o : Option Revocation) (w w' : World) (e : Failure)
      → again attempt hooks c reason o w ≡ (err e, w')
      → (w' ≡ w) ⊎ Escapes e
  again_clean c reason none w w' e h = inl (ground arith)
  again_clean c reason (some existing) w w' e h =
      elim (Bool-cases (not (number_eq existing.reason reason))) [
        | inl q ↦ inl (ground arith)
        | inr q ↦ elim (Bool-cases (not (is_pending existing.status))) [
          | inl r ↦ inl (ground arith)
          | inr r ↦
              let (taken, v) = claim_revocation existing.id w in
              inr (worked c existing.id taken v w' e (ground arith))
        ]
      ]

  submit_clean :
      (id : ℕ) (c : Certificate) (row : Revocation) (reason : Option ℕ) (w w' : World) (e : Failure)
      → submit attempt hooks id c row reason w ≡ (err e, w')
      → (w' ≡ w) ⊎ Escapes e
  submit_clean id c row reason w w' e h =
      elim (Option-cases (find_where (same_key c.id row.idempotency_key) w.revocations)) [
        | inl q ↦
            let (taken, v) = claim_revocation id (record w { revocations = row ∷ w.revocations }) in
            inr (worked c id taken v w' e (rw (submit, q) at h))
        | inr (existing, q) ↦ again_clean c reason (some existing) w w' e (rw (submit, q) at h)
      ]

  pub request_clean :
      (id : ℕ) (o : Option Certificate) (reason : Option ℕ) (key : String) (actor : Option String)
      (w w' : World) (e : Failure)
      → request_from attempt hooks id o reason key actor w ≡ (err e, w')
      → (w' ≡ w) ⊎ Escapes e
  request_clean id none reason key actor w w' e h = inl (ground arith)
  request_clean id (some c) reason key actor w w' e h = elim (Bool-cases (is_none c.expiry_date)) [
    | inl q ↦ inl (ground arith)
    | inr q ↦ by_domain c.domains (ground arith)
  ]
    where
      by_domain :
          (domains : List String)
          → for_domain attempt hooks id c domains reason key actor w ≡ (err e, w')
          → (w' ≡ w) ⊎ Escapes e
      by_domain [] h = inl (ground arith)
      by_domain (domain ∷ rest) h =
          submit_clean id c (new_revocation id c domain reason key actor) reason w w' e h
