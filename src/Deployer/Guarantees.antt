-- ===== src/Deployer/Guarantees.antt =====
-- What a deployment of acme_api/deployer.py does to the readers of the directory, whichever of its
-- calls fail, and what the selection and the pin of a generation do.
use acme_api.Common.{
  ℕ, String, Option, none, some, ◌≡◌, ◌≢◌, refl, sym, ap, ◌∙◌, Bool, true, false, ◌⊎◌, inl, arith,
}
use acme_api.Common.Dict.{lookup}
use acme_api.Common.Text.{has_char}
use acme_api.Models.World.{Result, ok, err}
use acme_api.Ports.Backend.{IssuanceResult}
use acme_api.Ports.Deployer.{DeploymentPaths, DeploymentOptions}
use acme_api.Deployer.Names.{deployment_directory_name}
use acme_api.Deployer.Disk.{Disk, Tree, Access, Subdirectory, Folder, symlink, files_of, Io, ◌>>=◌}
use acme_api.Deployer.Directories.{
  deployment_root, target_dir, set_access, configure_consumer_directories,
}
use acme_api.Deployer.Artifacts.{DeploymentMetadata, Outside, primary_domain, source_paths}
use acme_api.Deployer.Migration.{Draws, needs_migration}
use acme_api.Deployer.Sources.{validate_source_files}
use acme_api.Deployer.Deployment.{
  lift, mkdir, permissions_of, check_retention_count, deploy_checked, prepare_and_deploy,
  deploy_certificate_artifacts, metadata_of, deploy_issuance_result,
}
use acme_api.Deployer.Shown.{Shows}
use acme_api.Deployer.Atomic.{new_files, IsReady, deploy_generation_rule}
use acme_api.Deployer.Tolerance.{configure-Keeps}
use acme_api.Deployer.Triples.{Triple, Keeps, Post, call-Keeps, bind_rule, rewrap_rule, weaken}
use Prim.Native.String.{◌++◌}

module _ {A B : Type 0} {P : Tree → Type 0} {Q : B → Tree → Type 0} {R : Tree → Type 0} where
  -- A part that does not depend on the disk.
  lift_rule :
      (r : Result A) (f : A → Io B)
      → ((t : Tree) → P t → R t)
      → ((a : A) → r ≡ ok a → Triple P (f a) Q R)
      → Triple P (lift r >>= f) Q R
  lift_rule (ok a) f keep h = record { apply = λ d p. (h a refl).apply d p }
  lift_rule (err e) f keep h = record { apply = λ d p. keep d.tree p }

module _ (out : Outside) (draws : Draws) (result : IssuanceResult) (root : String)
    (options : DeploymentOptions) (primary : String) where
  abbrev issued_metadata : DeploymentMetadata
  issued_metadata = metadata_of result options primary

  -- The files of the generation that a deployment of the result makes.
  abbrev pub issued_files : Folder
  issued_files =
      new_files out result.cert issued_metadata (permissions_of options) draws
        options.generation.retention_count options.generation.retention_days

  -- `current` points to the new generation, which has all of its files.
  abbrev pub IsPublished : Tree → Type 0
  IsPublished t =
      Shows (some (symlink ("generations/" ++ draws.generation_id))) draws.generation_id
        (some issued_files) t

  module _ (m : ℕ) (e : Folder) (c : String) (g : Option Subdirectory) (other : draws.staging ≢ c)
      (another : draws.staging ≢ draws.generation_id) (unlike : draws.generation_id ≢ c)
      (settled : needs_migration e ≡ false) (flat : has_char 47 draws.generation_id ≡ false) where
    abbrev Ready : Tree → Type 0
    Ready t =
        IsReady out result.cert issued_metadata (permissions_of options) draws
          options.generation.retention_count options.generation.retention_days m e c g other another
          unlike settled flat t

    abbrev Either : Tree → Type 0
    Either t = Shows (lookup "current" e) c (files_of g) t ⊎ IsPublished t

    abbrev Answered : DeploymentPaths → Tree → Type 0
    Answered paths t = IsPublished t × (paths.generation_id ≡ some draws.generation_id)

    Ready-Either : (t : Tree) → Ready t → Either t
    Ready-Either t p = inl (record {
      current = ap (lookup "current") p.framed.unlinked;
      holds = ap files_of p.framed.retained;
    })

    Ready-too :
        (t : Tree) (a b : Access)
        → Ready t
        → Ready (record t { root_access = a; target_access = b })
    Ready-too t a b p = record {
      framed = record {
        fresh = p.framed.fresh;
        unlinked = p.framed.unlinked;
        retained = p.framed.retained;
      };
      unused = p.unused;
      unstaged = p.unstaged;
    }

    Keeps-rule : {A : Type 0} (m : Io A) → Keeps Ready m → Triple Ready m (λ _ t. Ready t) Either
    Keeps-rule m h = weaken _ _ _ _ m (λ _ t p. p) Ready-Either h

    mkdir_rule : Triple Ready mkdir (λ _ t. Ready t) Either
    unfolding mkdir
    mkdir_rule = Keeps-rule _ (call-Keeps _ λ t p. p)

    root_rule :
        Triple Ready
          (configure_consumer_directories deployment_root options.artifact_group_id)
          (λ _ t. Ready t)
          Either
    unfolding set_access
    root_rule = Keeps-rule _ (
        configure-Keeps deployment_root options.artifact_group_id
          λ f t p. Ready-too t (f t.root_access) t.target_access p)

    target_rule :
        Triple Ready
          (configure_consumer_directories target_dir options.artifact_group_id)
          (λ _ t. Ready t)
          Either
    unfolding set_access
    target_rule = Keeps-rule _ (
        configure-Keeps target_dir options.artifact_group_id
          λ f t p. Ready-too t t.root_access (f t.target_access) p)

    checked_rule :
        (target : String) (enabled : Bool)
        → enabled ≡ true
        → Triple Ready
            (deploy_checked out draws result.cert issued_metadata
              (record options { issuer = none })
              target
              enabled)
            Answered
            Either
    checked_rule target false h = absurd (ground arith)
    checked_rule target true h =
        weaken _ _ _ _ _ (λ paths t (p, e). (p, ap (λ (x : DeploymentPaths). x.generation_id) e))
          (λ t p. p)
          (deploy_generation_rule out result.cert issued_metadata (permissions_of options) draws
            options.generation.retention_count options.generation.retention_days m e c g other
            another unlike settled flat target)

    prepare_rule :
        options.generation.enabled ≡ true
        → Triple Ready
            (prepare_and_deploy out draws result.cert result.domains root
              (some issued_metadata)
              (record options { issuer = none }))
            Answered
            Either
    unfolding prepare_and_deploy
    prepare_rule h =
        bind_rule (λ _ t. Ready t) _ _ mkdir_rule
          λ _.
            bind_rule (λ _ t. Ready t) _ _ root_rule
              λ _. lift_rule (primary_domain result.domains) _ Ready-Either λ first _.
                lift_rule (deployment_directory_name out.repr first) _ Ready-Either λ name _.
                  bind_rule (λ _ t. Ready t) _ _ mkdir_rule
                    λ _.
                      bind_rule (λ _ t. Ready t) _ _ target_rule
                        λ _.
                          lift_rule
                            (validate_source_files out (source_paths result.cert)
                              options.allowed_source_roots)
                            _ Ready-Either
                            λ _ _. checked_rule (root ++ "/" ++ name) options.generation.enabled h

    deploy_rule :
        options.generation.enabled ≡ true
        → primary_domain result.domains ≡ ok primary
        → Triple Ready (deploy_issuance_result out draws result root options) Answered Either
    unfolding deploy_issuance_result deploy_certificate_artifacts
    deploy_rule h first = lift_rule (primary_domain result.domains) _ Ready-Either λ p q.
        let e : p ≡ primary = cc (sym q ∙ first) in
        rw e (
          lift_rule (check_retention_count options.generation.retention_count) _ Ready-Either λ _ _.
            rewrap_rule Answered Either "failed to deploy certificate artifacts"
              (prepare_and_deploy out draws result.cert result.domains root (some issued_metadata)
                (record options { issuer = none }))
              (prepare_rule h))

  -- Whatever calls of the operating system fail during the deployment of a generation, and wherever
  -- it is cut off, `current` afterwards is what it was and the generation `c` has its old files, or
  -- `current` points to the new generation, which has all five files with the permissions and the
  -- group that the options name; the latter holds if the deployment succeeds, and the answer then
  -- names the new generation. The names drawn must be unused, and no files of the layout without
  -- generations may be left to migrate.
  pub deployment_atomic :
      (d : Disk) (c : String)
      → options.generation.enabled ≡ true
      → primary_domain result.domains ≡ ok primary
      → draws.staging ≢ c
      → draws.generation_id ≢ c
      → draws.staging ≢ draws.generation_id
      → has_char 47 draws.generation_id ≡ false
      → needs_migration d.tree.entries ≡ false
      → lookup draws.generation_id d.tree.generations ≡ none
      → lookup draws.staging d.tree.generations ≡ none
      → Post
          (λ paths t. IsPublished t × (paths.generation_id ≡ some draws.generation_id))
          (λ t.
            Shows (lookup "current" d.tree.entries) c (files_of (lookup c d.tree.generations)) t
            ⊎ IsPublished t)
          (deploy_issuance_result out draws result root options d)
  deployment_atomic d c enabled first other unlike another flat settled unused unstaged =
      (deploy_rule d.tree.fresh_mode d.tree.entries c (lookup c d.tree.generations) other another
          unlike settled flat enabled first).apply
        d
        (record {
          framed = record { fresh = refl; unlinked = refl; retained = refl };
          unused = unused;
          unstaged = unstaged;
        })
