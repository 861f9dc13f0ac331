-- ===== src/Services/Generations.antt =====
-- acme_api/services/deployment_generations.py: the public description of a deployed generation.
use acme_api.Common.{ℕ, String, Option, none, some, []}
use acme_api.Models.Certificate.{GenerationDetails}
use acme_api.Models.World.{Result, ok, err}
use acme_api.Ports.Deployer.{DeploymentPaths, Metadata, Deployer}

-- Python's `metadata.get(key, default)`.
abbrev or_else {ℓ} : {A : Type ℓ} → Option A → A → A
or_else none d = d
or_else (some a) _ = a

abbrev describe :
    DeploymentPaths → String → Result Metadata → Result String → Result (Option GenerationDetails)
describe paths generation_id (err e) digest = err e
describe paths generation_id (ok metadata) (err e) = err e
describe paths generation_id (ok metadata) (ok digest) = ok (
    some (record {
      generation_id = generation_id;
      cert_path = paths.cert_path;
      chain_path = paths.chain_path;
      fullchain_path = paths.fullchain_path;
      privkey_path = paths.privkey_path;
      fingerprint_sha256 = or_else metadata.fingerprint_sha256 digest;
      serial = metadata.serial;
      subjects = or_else metadata.subjects (or_else metadata.domains []);
      not_after = metadata.expires_at;
    }))

abbrev expiry_in : Result Metadata → Result (Option ℕ)
expiry_in (err e) = err e
expiry_in (ok metadata) = ok (some metadata.expires_at)

-- The metadata file and the certificate may be unreadable.
module _ (deployer : Deployer) where
  unfoldable pub generation_details : DeploymentPaths → Result (Option GenerationDetails)
  generation_details paths = elim paths.generation_id [
    | none ↦ ok none
    | some generation_id ↦
        describe paths generation_id (deployer.read_metadata paths.metadata_path)
          (deployer.sha256_of_file paths.cert_path)
  ]

  unfoldable pub generation_expiry : DeploymentPaths → Result (Option ℕ)
  generation_expiry paths = elim paths.generation_id [
    | none ↦ ok none
    | some _ ↦ expiry_in (deployer.read_metadata paths.metadata_path)
  ]
