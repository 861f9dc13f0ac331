-- ===== src/Ports/Deployer.antt =====
-- acme_api/deployer.py as the service sees it: whether a deployment succeeds depends on the files,
-- so its answers are an argument of the service.
use acme_api.Common.{ℕ, String, Option, List, Bool}
use acme_api.Models.World.{Result}
use acme_api.Ports.Backend.{IssuanceResult}

pub record DeploymentPaths : Type 0 where
  pub directory : String
  pub cert_path : String
  pub chain_path : String
  pub fullchain_path : String
  pub privkey_path : String
  pub metadata_path : String
  pub generation_id : Option String

pub record GenerationOptions : Type 0 where
  pub enabled : Bool
  pub retention_count : Option ℕ
  pub retention_days : Option ℕ

pub record DeploymentOptions : Type 0 where
  pub permissions_cert : ℕ
  pub permissions_key : ℕ
  pub artifact_group_id : Option ℕ
  pub issuer : Option String
  pub allowed_source_roots : Option (List String)
  pub generation : GenerationOptions

-- A `DeploymentError`, or an `OSError` that the deployer lets through, as the selection of a
-- generation does.
pub data Deployed : Type 0 where
  deployed : DeploymentPaths → Deployed
  deployment_failed : String → Deployed
  deployment_os_error : String → Deployed

-- The file metadata.json beside deployed artifacts, as far as it is read back.
pub record Metadata : Type 0 where
  pub fingerprint_sha256 : Option String
  pub serial : Option String
  pub subjects : Option (List String)
  pub domains : Option (List String)
  pub expires_at : ℕ

pub record Deployer : Type 0 where
  pub deploy_issuance_result : IssuanceResult → String → DeploymentOptions → Deployed
  pub select_generation : String → String → String → Deployed
  pub read_metadata : String → Result Metadata
  pub sha256_of_file : String → Result String
