-- ===== src/Services/Interleaving.antt =====
-- Any number of tasks of the service and the scheduler at once. A task runs from one await to the
-- next without interruption and each guarded update is one statement of the database, so a history
-- is a list of atomic steps. A step that writes after an earlier read takes the row that it read as
-- an argument: any row at all, so every stale read is covered. Three kinds of steps write without a
-- guard: the claim of `issue_certificate`, the start of a renewal and its end; `overwrites` tells
-- which row they hit.
use acme_api.Services.Revocations.{Revoked, claim_revocation, conclude_revocation}
use acme_api.Services.Refinement.Revocations.{
  certificates-claim_revocation, certificates-conclude_revocation,
}
use acme_api.Models.Revocation.{Revocation}
use acme_api.Services.Refinement.Selection.{select_from-Effect}
use acme_api.Services.Selection.{select_from}
use acme_api.Common.{
  ◌∷◌, ℕ, String, Option, none, some, ◌≡◌, refl, ap, ◌∙◌, ◌⊎◌, inl, inr, Bool, true, false, not,
  ◌&&◌, ◌==◌, ==_refl, and_true, arith,
}
use acme_api.Models.Certificate.{Certificate, Status, pending, valid, same_status}
use acme_api.Models.World.{World}
use acme_api.Ports.Settings.{AppSettings, AcmeAccountConfig, RenewalConfig}
use acme_api.Ports.Backend.{Backend}
use acme_api.Ports.Deployer.{Deployer}
use acme_api.Ports.Dispatcher.{Dispatcher}
use acme_api.Ports.Jobs.{JobStore}
use acme_api.Services.Rows.{get}
use acme_api.Services.Requests.{CertificateCreate, create_from}
use acme_api.Services.Holds.{authorize_from, release_from}
use acme_api.Services.Issuance.{Attempt, finish, claim_pending, claim_released}
use acme_api.Services.Retirement.{revoke_from, request_manual_renewal}
use acme_api.Services.Change.{Keeps, Keeps-refl, Keeps-trans}
use acme_api.Services.Effect.{
  Effect, same, Overwritten, Survives, survives, Effect-Survives, Overwritten-Survives, IsRetired,
  Effect-IsRetired, Overwritten-IsRetired,
}
use acme_api.Services.Refinement.Renewal.{begin_renewal-Effect, conclude-Effect}
use acme_api.Scheduler.Renewal.{Renewal, begin_renewal, conclude}
use acme_api.Services.Refinement.Holds.{authorize_from-Effect, release_from-Effect}
use acme_api.Services.Refinement.Issuance.{
  finish-Effect, claim_pending-Effect, claim_released-Effect,
}
use acme_api.Services.Refinement.Retirement.{revoke_from-Effect, request_manual_renewal-Effect}
use acme_api.Services.Refinement.Requests.{create_from-Effect}

-- One atomic step, with the answers of the backend, the deployer and the network as they come.
pub data Step (w : World) : World → Type 0 where
  tick : (now : ℕ) → Step w (record w { now = now })
  create :
      (backend : Backend) (hooks : Option Dispatcher) (seen : Option Certificate) (id : ℕ)
      (account : AcmeAccountConfig) (p : CertificateCreate)
      → get id w ≡ none
      → Step w (create_from backend hooks seen id account p w).1
  authorize : (seen : Option Certificate) (id : ℕ) → Step w (authorize_from seen id w).1
  release :
      (seen : Option Certificate) (id revision : ℕ) (key : String)
      → Step w (release_from seen id revision key w).1
  claim_new : (seen : Option Certificate) → Step w (claim_pending seen w).1
  claim_release : (id : ℕ) → Step w (claim_released id w).1
  finish_issue :
      (deployer : Deployer) (hooks : Option Dispatcher) (scheduler : Option RenewalConfig) (id : ℕ)
      (attempt : Attempt)
      → Step w (finish deployer hooks scheduler id attempt w).1
  revoke :
      (hooks : Option Dispatcher) (store : Option JobStore) (seen : Option Certificate) (id : ℕ)
      → Step w (revoke_from hooks store seen id w).1
  select :
      (settings : AppSettings) (deployer : Deployer) (scheduler : Option RenewalConfig)
      (repr : String → String) (seen : Option Certificate) (generation_id key : String)
      → Step w (select_from settings deployer scheduler repr seen generation_id key w).1
  revocation_submit : (r : Revocation) → Step w (record w { revocations = r ∷ w.revocations })
  revocation_claim : (id : ℕ) → Step w (claim_revocation id w).1
  revocation_conclude :
      (hooks : Option Dispatcher) (c : Certificate) (r : Revocation) (outcome : Revoked)
      → Step w (conclude_revocation hooks c r outcome w).1
  renewal_request : (id : ℕ) → Step w (request_manual_renewal id w).1
  renewal_begin : (seen : Option Certificate) → Step w (begin_renewal seen w).1
  renewal_conclude :
      (config : RenewalConfig) (deployer : Deployer) (hooks : Option Dispatcher) (c : Certificate)
      (outcome : Renewal)
      → Step w (conclude config deployer hooks c outcome w).1

-- Whether a task that reads the row goes on to write the row `j`, given the status that it wants.
abbrev claims : Status → Option Certificate → ℕ → Bool
claims wanted none j = false
claims wanted (some c) j = (c.id == j) && same_status c.status wanted

-- Whether the step is an unguarded write to the row `j`.
abbrev pub overwrites : {w w' : World} → Step w w' → ℕ → Bool
overwrites (claim_new seen) j = claims pending seen j
overwrites (renewal_begin seen) j = claims valid seen j
overwrites (renewal_conclude config deployer hooks c outcome) j = c.id == j
overwrites _ j = false

pub data Reach (w : World) : World → Type 0 where
  here : Reach w w
  next : {v u : World} → Reach w v → Step v u → Reach w u

-- No step of the history is an unguarded write to the row `j`.
abbrev pub spared : {w w' : World} → ℕ → Reach w w' → Bool
spared j here = true
spared j (next r st) = spared j r && not (overwrites st j)

claims-own :
    (wanted : Status) (seen : Option Certificate) (c : Certificate)
    → seen ≡ some c
    → same_status c.status wanted ≡ true
    → claims wanted seen c.id ≡ true
claims-own wanted seen c e g =
    let k : claims wanted seen c.id ≡ claims wanted (some c) c.id =
      ap (λ o. claims wanted o c.id) e in
    k ∙ rw (==_refl c.id) g

-- Every atomic step of the service and of the renewals, whatever stale row it works on and whatever
-- the backend, the deployer and the network answer, leaves the table of certificates alone, makes
-- one change of the lifecycle to one row, or adds one row with a new id; only a claim of
-- issue_certificate that read its row as pending, a start of a renewal that read it as valid, and
-- the end of a renewal may instead write issuing, renewing, valid or failed to their own row,
-- whatever state it is in.
pub Step-Effect : {w w' : World} (st : Step w w') → Effect w w' ⊎ Overwritten (overwrites st) w w'
Step-Effect (tick now) = inl (same refl)
Step-Effect {w} (create backend hooks seen id account p fresh) =
    inl (create_from-Effect backend hooks id account p w fresh seen)
Step-Effect {w} (authorize seen id) = inl (authorize_from-Effect seen id w)
Step-Effect {w} (release seen id revision key) = inl (release_from-Effect seen id revision key w)
Step-Effect {w} (claim_new seen) =
    claim_pending-Effect (claims pending seen) seen w (claims-own pending seen)
Step-Effect {w} (claim_release id) = inl (claim_released-Effect id w)
Step-Effect {w} (finish_issue deployer hooks scheduler id attempt) =
    inl (finish-Effect deployer hooks scheduler id attempt w)
Step-Effect {w} (revoke hooks store seen id) = inl (revoke_from-Effect hooks store seen id w)
Step-Effect {w} (select settings deployer scheduler repr seen generation_id key) =
    inl (select_from-Effect settings deployer scheduler repr seen generation_id key w)
Step-Effect {w} (revocation_submit r) = inl (same refl)
Step-Effect {w} (revocation_claim id) = inl (same (certificates-claim_revocation id w))
Step-Effect {w} (revocation_conclude hooks c r outcome) =
    inl (same (certificates-conclude_revocation hooks c r outcome w))
Step-Effect {w} (renewal_request id) = inl (request_manual_renewal-Effect id w)
Step-Effect {w} (renewal_begin seen) =
    begin_renewal-Effect (claims valid seen) seen w (claims-own valid seen)
Step-Effect {w} (renewal_conclude config deployer hooks c outcome) =
    conclude-Effect (λ j. c.id == j) config deployer hooks c (==_refl c.id) outcome w

step_once :
    {hit : ℕ → Bool} {w w' : World}
    → Effect w w' ⊎ Overwritten hit w w'
    → (j : ℕ) (c : Certificate) → get j w ≡ some c
    → Survives j c w'
step_once (inl e) j c h = Effect-Survives e j c h
step_once (inr o) j c h = Overwritten-Survives o j c h

survive_step : {j : ℕ} {c : Certificate} {v u : World} → Survives j c v → Step v u → Survives j c u
survive_step {j} {c} {u = u} (survives x hx k) st = onward (step_once (Step-Effect st) j x hx) k
  where
    onward : {x : Certificate} → Survives j x u → Keeps c x → Survives j c u
    onward (survives y hy l) k = survives y hy (Keeps-trans k l)

-- In every history of steps, renewals and stale claims included, a row stays in the table: it keeps
-- its id, name, domains, account, method, DNS value and release key, and its revision never falls.
pub Reach-Survives :
    {w w' : World} → Reach w w' → (j : ℕ) (c : Certificate) → get j w ≡ some c → Survives j c w'
Reach-Survives here j c h = survives c h (Keeps-refl c)
Reach-Survives (next r st) j c h = survive_step (Reach-Survives r j c h) st

step-IsRetired :
    {hit : ℕ → Bool} {w w' : World}
    → Effect w w' ⊎ Overwritten hit w w'
    → (j : ℕ) → hit j ≡ false
    → IsRetired j w
    → IsRetired j w'
step-IsRetired (inl e) j k d = Effect-IsRetired e j d
step-IsRetired (inr o) j k d = Overwritten-IsRetired o j k d

not-true : (b : Bool) → not b ≡ true → b ≡ false
not-true b h = ground arith

-- A deleted row that no unguarded write hits stays deleted.
pub Reach-IsRetired :
    {w w' : World} (r : Reach w w') (j : ℕ) → spared j r ≡ true → IsRetired j w → IsRetired j w'
Reach-IsRetired here j k d = d
Reach-IsRetired (next r st) j k d =
    let (before, last) = and_true (spared j r) (not (overwrites st j)) k in
    step-IsRetired (Step-Effect st) j (not-true (overwrites st j) last)
      (Reach-IsRetired r j before d)
