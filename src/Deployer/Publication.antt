-- ===== src/Deployer/Publication.antt =====
-- The publication of a generation (acme_api/deployer.py): staged, selected, and cleaned up after.
use acme_api.Common.{ℕ, String, Option, some}
use acme_api.Models.World.{Result, ok, err, os_error}
use acme_api.Ports.Backend.{CertExpiry}
use acme_api.Ports.Deployer.{DeploymentPaths}
use acme_api.Deployer.Disk.{Io, ◌>>◌, pure, finally, rewrap, in_generations}
use acme_api.Deployer.Directories.{
  fsync_directory, generations_dir, staging_dir, configure_consumer_directories, mkdtemp,
  mkdir_generations, replace_directory,
}
use acme_api.Deployer.Artifacts.{
  deployment_paths, DeploymentMetadata, Outside, Permissions, write_temp_artifacts,
  replace_artifacts,
}
use acme_api.Deployer.Selecting.{select_generation_directory, generation_path}
use acme_api.Deployer.Migration.{
  ensure_compatibility_links, remove_staging, Draws, migrate_legacy_compatibility_links,
}
use acme_api.Deployer.Removal.{clean_up}

-- `except OSError: LOGGER.warning(...)`
abbrev pub tolerated : {A : Type 0} → Result A → Result (Unit {0})
tolerated (err (os_error m)) = ok tt
tolerated (err e) = err e
tolerated (ok _) = ok tt

unfoldable pub tolerate_os_error : {A : Type 0} → Io A → Io (Unit {0})
tolerate_os_error m d = let (r, d') = m d in (tolerated r, d')

module _ (out : Outside) (draws : Draws) (cert : CertExpiry) (metadata : DeploymentMetadata) where
  module _ (permissions : Permissions) (count days : Option ℕ) where
    -- The new generation, written, renamed and synced, but not yet current.
    unfoldable pub stage_generation : Io (Unit {0})
    unfolding write_temp_artifacts replace_artifacts fsync_directory replace_directory
    stage_generation = do
      write_temp_artifacts out (in_generations draws.staging) cert metadata permissions
      replace_artifacts (in_generations draws.staging) (in_generations draws.staging)
      fsync_directory
      replace_directory draws.staging draws.generation_id
      fsync_directory

    unfoldable pub publish_generation : Io (Unit {0})
    unfolding stage_generation migrate_legacy_compatibility_links select_generation_directory
        ensure_compatibility_links clean_up tolerate_os_error
    publish_generation = do
      stage_generation
      migrate_legacy_compatibility_links draws permissions.group
      select_generation_directory draws.generation_id
      ensure_compatibility_links
      tolerate_os_error (clean_up count days)

    -- `_deploy_generation`
    unfoldable pub deploy_generation : String → Io DeploymentPaths
    unfolding publish_generation mkdir_generations configure_consumer_directories mkdtemp finally
        rewrap remove_staging
    deploy_generation target = do
      mkdir_generations
      configure_consumer_directories generations_dir permissions.group
      mkdtemp (in_generations draws.staging)
      configure_consumer_directories (staging_dir draws.staging) permissions.group
      finally (rewrap "failed to publish certificate generation" publish_generation)
          (remove_staging draws.staging)
      pure
          (deployment_paths (generation_path target draws.generation_id) (some draws.generation_id))
