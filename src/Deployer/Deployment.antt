-- ===== src/Deployer/Deployment.antt =====
-- `deploy_issuance_result` and `deploy_certificate_artifacts` of acme_api/deployer.py. The disk is
-- the directory of the certificate; a number of days is never negative here.
use acme_api.Common.{ℕ, String, Option, none, some, List, Bool, true, false, ltb, if◌then◌else◌}
use acme_api.Models.World.{Result, ok, err, deployment}
use acme_api.Ports.Backend.{CertExpiry, IssuanceResult}
use acme_api.Ports.Deployer.{DeploymentPaths, DeploymentOptions}
use acme_api.Deployer.Names.{deployment_directory_name}
use acme_api.Deployer.Disk.{Io, ◌>>=◌, ◌>>◌, pure, call, finally, rewrap, in_target, in_temporary}
use acme_api.Deployer.Directories.{
  deployment_root, target_dir, configure_consumer_directories, mkdtemp, rmtree_ignoring,
  fsync_directory,
}
use acme_api.Deployer.Artifacts.{
  DeploymentMetadata, Outside, Permissions, source_paths, primary_domain, metadata_for_cert,
  deployment_paths, write_temp_artifacts, replace_artifacts,
}
use acme_api.Deployer.Sources.{validate_source_files}
use acme_api.Deployer.Migration.{Draws}
use acme_api.Deployer.Publication.{deploy_generation}
use Prim.Native.String.{◌++◌}

-- A result that does not depend on the disk.
abbrev pub lift : {A : Type 0} → Result A → Io A
lift r d = (r, d)

-- `mkdir(parents=True, exist_ok=True)`
unfoldable pub mkdir : Io (Unit {0})
unfolding call
mkdir = call λ t. (ok tt, t)

abbrev pub permissions_of : DeploymentOptions → Permissions
permissions_of options = record {
  cert = options.permissions_cert;
  key = options.permissions_key;
  group = options.artifact_group_id;
}

abbrev pub or_default : Option DeploymentMetadata → DeploymentMetadata → DeploymentMetadata
or_default none default = default
or_default (some metadata) default = metadata

abbrev pub check_retention_count : Option ℕ → Result (Unit {0})
check_retention_count none = ok tt
check_retention_count (some count) =
    if ltb count 1
    then err (deployment "generation retention count must be at least one")
    else ok tt

module _ (out : Outside) (draws : Draws) (cert : CertExpiry) where
  -- The deployment that replaces the files in place.
  unfoldable pub deploy_in_place : DeploymentMetadata → Permissions → String → Io DeploymentPaths
  unfolding mkdtemp finally write_temp_artifacts fsync_directory replace_artifacts rmtree_ignoring
  deploy_in_place metadata permissions target = do
    mkdtemp (in_temporary draws.temporary)
    finally
        (write_temp_artifacts out (in_temporary draws.temporary) cert metadata permissions
          >> fsync_directory
          >> replace_artifacts (in_temporary draws.temporary) in_target
          >> fsync_directory)
        (rmtree_ignoring (in_temporary draws.temporary))
    pure (deployment_paths target none)

  abbrev pub deploy_checked :
      DeploymentMetadata → DeploymentOptions → String → Bool → Io DeploymentPaths
  deploy_checked metadata options target true =
      deploy_generation out draws cert metadata (permissions_of options)
        options.generation.retention_count options.generation.retention_days target
  deploy_checked metadata options target false =
      deploy_in_place metadata (permissions_of options) target

  -- The part that runs under `try`.
  unfoldable pub prepare_and_deploy :
      List String → String → Option DeploymentMetadata → DeploymentOptions → Io DeploymentPaths
  unfolding mkdir configure_consumer_directories deployment_directory_name validate_source_files
      deploy_generation deploy_in_place
  prepare_and_deploy domains root metadata options = do
    mkdir
    configure_consumer_directories deployment_root options.artifact_group_id
    primary ← lift (primary_domain domains)
    name ← lift (deployment_directory_name out.repr primary)
    mkdir
    configure_consumer_directories target_dir options.artifact_group_id
    lift (validate_source_files out (source_paths cert) options.allowed_source_roots)
    deploy_checked (or_default metadata (metadata_for_cert cert domains primary)) options
        (root ++ "/" ++ name) options.generation.enabled

  unfoldable pub deploy_certificate_artifacts :
      List String → String → Option DeploymentMetadata → DeploymentOptions → Io DeploymentPaths
  unfolding prepare_and_deploy rewrap
  deploy_certificate_artifacts domains root metadata options = do
    lift (check_retention_count options.generation.retention_count)
    rewrap "failed to deploy certificate artifacts"
        (prepare_and_deploy domains root metadata options)

-- The metadata of an issuance.
abbrev pub metadata_of : IssuanceResult → DeploymentOptions → String → DeploymentMetadata
metadata_of result options primary = record {
  primary_domain = primary;
  domains = result.domains;
  expires_at = result.cert.expires_at;
  issuer = options.issuer;
  source_cert_path = some result.cert.cert_path;
  source_chain_path = some result.cert.chain_path;
  source_fullchain_path = some result.cert.fullchain_path;
}

unfoldable pub deploy_issuance_result :
    Outside → Draws → IssuanceResult → String → DeploymentOptions → Io DeploymentPaths
unfolding deploy_certificate_artifacts
deploy_issuance_result out draws result root options = do
  primary ← lift (primary_domain result.domains)
  deploy_certificate_artifacts out draws result.cert result.domains root
      (some (metadata_of result options primary)) (record options { issuer = none })
