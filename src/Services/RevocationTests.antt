-- ===== src/Services/RevocationTests.antt =====
-- The theorems about revocations at the authority at concrete inputs.
use acme_api.Common.{none, some, [], ◌∷◌, ◌≡◌, refl, false}
use acme_api.Samples.{settings, valid_row, world, broken_backend}
use acme_api.Models.Revocation.{Revocation}
use acme_api.Models.World.{World, err, lifecycle}
use acme_api.Services.Revocations.{
  new_revocation, leased, claim_revocation, get_revocation, request_revocation, succeeded_row,
}
use acme_api.Services.Guarantees.Revoking.{
  both_transient, lease_exclusive, revocation_replayed, failure_hidden,
}

abbrev request : Revocation
request = new_revocation 7 valid_row "example.org" (some 1) "r1" (some "alice")

abbrev pending_world : World
pending_world = record world { revocations = request ∷ [] }

-- Five minutes after the claim.
abbrev claimed_world : World
claimed_world = record world { now = 63800000300; revocations = leased 63800000000 request ∷ [] }

lease_exclusive_example :
    (get_revocation 7 claimed_world ≡ some (leased 63800000000 request))
    × ((claim_revocation 7 claimed_world).0 ≡ false)
    × ((claim_revocation 7 claimed_world).1 ≡ claimed_world)
unfolding claim_revocation
lease_exclusive_example = lease_exclusive request pending_world claimed_world refl refl refl

abbrev finished : Revocation
finished = succeeded_row 63800000300 (leased 63800000000 request)

abbrev finished_world : World
finished_world = record world { revocations = finished ∷ [] }

revocation_replayed_example :
    request_revocation settings (broken_backend "down") none 8 2 (some 4) "r1" none finished_world
    ≡ (
      err (lifecycle "Idempotency key was already used with another revocation reason."),
      finished_world,
    )
revocation_replayed_example =
    revocation_replayed settings (broken_backend "down") none 8 valid_row finished (some 4) none
      finished_world refl refl refl refl refl

failure_hidden_example :
    request_revocation settings (broken_backend "token=secret") none 8 2 (some 1) "r2" none world
    ≡ request_revocation settings (broken_backend "") none 8 2 (some 1) "r2" none world
failure_hidden_example =
    failure_hidden settings (broken_backend "token=secret") (broken_backend "") none
      (λ q. both_transient "token=secret" "") 8 2 (some 1) "r2" none world
