-- ===== src/Services/Guarantees/Discard.antt =====
-- The result of an issuance against a row that was deleted meanwhile.
use acme_api.Common.{ℕ, Option, some, ◌≡◌, refl, true, false, arith}
use acme_api.Models.Certificate.{Certificate, Status, issuing, same_status, GenerationDetails}
use acme_api.Models.World.{World, Result, ok, err}
use acme_api.Ports.Settings.{RenewalConfig}
use acme_api.Ports.Backend.{IssuanceResult}
use acme_api.Ports.Deployer.{Deployer, DeploymentPaths}
use acme_api.Ports.Dispatcher.{Dispatcher}
use acme_api.Services.Generations.{generation_details}
use acme_api.Services.Rows.{get}
use acme_api.Services.Issuance.{
  Attempt, issued, rejected, crashed, finish, complete, complete_with, mark_failed,
}
use acme_api.Services.Change.{is_retired}
use acme_api.Services.Effect.{IsRetired, retired}
use acme_api.Services.Interleaving.{Reach, spared, Reach-IsRetired}

retired-not_issuing : (s : Status) → is_retired s ≡ true → same_status s issuing ≡ false
retired-not_issuing s h = ground arith

module _ (deployer : Deployer) (hooks : Option Dispatcher) (scheduler : Option RenewalConfig) where
  completed_retired :
      (id : ℕ) (result : IssuanceResult) (paths : DeploymentPaths)
      (read : Result (Option GenerationDetails)) (x : Certificate) (w : World)
      → get id w ≡ some x
      → is_retired x.status ≡ true
      → (complete_with hooks scheduler id result paths read w).1 ≡ w
  unfolding complete
  completed_retired id result paths (err e) x w h d = refl
  completed_retired id result paths (ok details) x w h d =
      rw (h, complete, retired-not_issuing x.status d)

  finish_retired :
      (id : ℕ) (attempt : Attempt) (x : Certificate) (w : World)
      → get id w ≡ some x
      → is_retired x.status ≡ true
      → (finish deployer hooks scheduler id attempt w).1 ≡ w
  unfolding finish
  finish_retired id (issued result paths) x w h d =
      completed_retired id result paths (generation_details deployer paths) x w h d
  finish_retired id (rejected error) x w h d = rw (h, mark_failed, retired-not_issuing x.status d)
  finish_retired id (crashed e) x w h d = refl

  -- Once a row is cancelled or revoked, the end of an issuance changes nothing at all, however the
  -- backend and the deployment ended: no status, no event, no webhook, no renewal job. That holds
  -- in every history that follows in which no unguarded write hits the row: no claim of
  -- issue_certificate that read the row as pending, no start of a renewal that read it as valid,
  -- and no end of a renewal of it.
  pub finish_discarded :
      (id : ℕ) (attempt : Attempt) (c : Certificate) (w w' : World)
      → get id w ≡ some c
      → is_retired c.status ≡ true
      → (r : Reach w w') → spared id r ≡ true
      → (finish deployer hooks scheduler id attempt w').1 ≡ w'
  finish_discarded id attempt c w w' h d r k = from_row (Reach-IsRetired r id k (retired c h d))
    where
      from_row : IsRetired id w' → (finish deployer hooks scheduler id attempt w').1 ≡ w'
      from_row (retired x hx e) = finish_retired id attempt x w' hx e
