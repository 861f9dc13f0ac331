-- ===== src/Services/Races.antt =====
-- What the unguarded claim of `issue_certificate` (acme_api/services/certificates.py) does after a
-- stale read.
use acme_api.Common.{Option, some, ◌≡◌, refl}
use acme_api.Models.Certificate.{Certificate, pending, issuing, valid, GenerationDetails}
use acme_api.Models.World.{World, ok}
use acme_api.Ports.Settings.{RenewalConfig}
use acme_api.Ports.Backend.{IssuanceResult}
use acme_api.Ports.Deployer.{Deployer, DeploymentPaths}
use acme_api.Ports.Dispatcher.{Dispatcher}
use acme_api.Services.Generations.{generation_details}
use acme_api.Services.Rows.{get, put, with_status, get-put_self}
use acme_api.Services.Issuance.{claim_pending, finish, issued}
use acme_api.Services.Guarantees.Settling.{finish-settled}

-- If a row was pending when a task read it, the claim of that task and the end of a successful
-- issuance make the row valid with the new expiry date, whatever it has become since the read: a
-- certificate that was revoked or cancelled meanwhile is valid again.
pub claim_overwrites :
    (deployer : Deployer) (hooks : Option Dispatcher) (scheduler : Option RenewalConfig)
    (seen c : Certificate) (result : IssuanceResult) (paths : DeploymentPaths)
    (details : Option GenerationDetails) (w : World)
    → seen.status ≡ pending
    → get seen.id w ≡ some c
    → generation_details deployer paths ≡ ok details
    → let (claimed, w') = claim_pending (some seen) w in
      (claimed ≡ some (record seen { status = issuing }))
      × (get seen.id (finish deployer hooks scheduler seen.id (issued result paths) w').1
          ≡ some (record c {
            status = valid;
            expiry_date = some result.cert.expires_at;
            current_generation_id = paths.generation_id;
            current_generation_details = details;
          }))
unfolding claim_pending
claim_overwrites deployer hooks scheduler seen c result paths details w s h d =
    let w' = put seen.id (with_status issuing) w in
    let written : get seen.id w' ≡ some (with_status issuing c) =
      get-put_self (with_status issuing) (λ x. refl) seen.id c w h in
    let ended =
      finish-settled deployer hooks scheduler seen.id (issued result paths) (with_status issuing c)
        w' written refl in
    rw (claim_pending, s) (refl, rw d at ended)
