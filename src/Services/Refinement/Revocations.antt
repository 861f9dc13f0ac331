-- ===== src/Services/Refinement/Revocations.antt =====
-- The steps of a revocation at the authority (acme_api/services/certificate_revocations.py) and the
-- table of certificates.
use acme_api.Common.{ℕ, Option, ◌≡◌, arith, refl}
use acme_api.Models.Certificate.{Certificate}
use acme_api.Models.Revocation.{Revocation}
use acme_api.Models.World.{World}
use acme_api.Ports.Dispatcher.{Dispatcher, certificates-dispatch}
use acme_api.Services.Revocations.{
  Revoked, accepted, refused, broken, claim_revocation, conclude_revocation,
}

pub certificates-claim_revocation :
    (id : ℕ) (w : World) → (claim_revocation id w).1.certificates ≡ w.certificates
unfolding claim_revocation
certificates-claim_revocation id w = ground arith

pub certificates-conclude_revocation :
    (hooks : Option Dispatcher) (c : Certificate) (r : Revocation) (outcome : Revoked) (w : World)
    → (conclude_revocation hooks c r outcome w).1.certificates ≡ w.certificates
unfolding conclude_revocation
certificates-conclude_revocation hooks c r accepted w =
    certificates-dispatch hooks "certificate.revoked_at_ca" c _
certificates-conclude_revocation hooks c r (refused e) w =
    certificates-dispatch hooks "certificate.revocation_failed" c _
certificates-conclude_revocation hooks c r (broken m) w = refl
