-- ===== src/Deployer/Atomic.antt =====
-- The publication of a generation (`_deploy_generation` of acme_api/deployer.py) as its readers see
-- it, whichever of its calls fail.
use acme_api.Common.{
  ℕ, String, Option, none, some, [], ◌≡◌, ◌≢◌, refl, sym, ap, ◌∙◌, Bool, true, false, inl, inr,
}
use acme_api.Common.Dict.{lookup, insert, lookup-insert_self, lookup-insert_ne}
use acme_api.Common.Text.{has_char}
use acme_api.Ports.Backend.{CertExpiry}
use acme_api.Ports.Deployer.{DeploymentPaths}
use acme_api.Deployer.Disk.{
  Disk, Tree, Access, Subdirectory, Folder, Entry, files_of, pure, in_generations,
}
use acme_api.Deployer.Directories.{
  observe, generations_dir, staging_dir, set_access, with_access, configure_consumer_directories,
  mkdtemp, mkdir_generations, make_subdirectory, fresh_directory, with_generations,
}
use acme_api.Deployer.Artifacts.{DeploymentMetadata, Outside, Permissions, deployment_paths}
use acme_api.Deployer.Migration.{
  Draws, needs_migration, migrate_legacy_compatibility_links, remove_staging,
}
use acme_api.Deployer.Removal.{clean_up}
use acme_api.Deployer.Publication.{publish_generation, deploy_generation}
use acme_api.Deployer.Selecting.{generation_path}
use acme_api.Deployer.Staging.{IsFramed, IsStaged}
use acme_api.Deployer.Written.{complete_generation, IsPlaced, stage_generation_rule}
use acme_api.Deployer.Shown.{Shows, ensure_compatibility_links-Shows, remove_staging-Shows}
use acme_api.Deployer.Switch.{After, Either, select_generation_directory_rule}
use acme_api.Deployer.Cleaning.{clean_up-Shows, current-IsProtected}
use acme_api.Deployer.Triples.{
  Triple, Keeps, call_rule, call-Keeps, bind_rule, finally_rule, rewrap_rule, weaken, strengthen,
  after_keeps,
}
use acme_api.Deployer.Tolerance.{tolerate_rule, configure-Keeps}

module _ (out : Outside) (cert : CertExpiry) (metadata : DeploymentMetadata)
    (permissions : Permissions) (draws : Draws) (count days : Option ℕ) where
  abbrev pub new_files : Folder
  new_files = complete_generation out cert metadata permissions

  module _ (m : ℕ) (e : Folder) (c : String) (g : Option Subdirectory) (other : draws.staging ≢ c)
      (another : draws.staging ≢ draws.generation_id) (unlike : draws.generation_id ≢ c)
      (settled : needs_migration e ≡ false) (flat : has_char 47 draws.generation_id ≡ false) where
    abbrev link : Option Entry
    link = lookup "current" e

    abbrev pub Old : Tree → Type 0
    Old t = Shows link c (files_of g) t

    abbrev pub New : Tree → Type 0
    New t = After link c draws.generation_id (files_of g) (some new_files) t

    abbrev pub OldOrNew : Tree → Type 0
    OldOrNew t = Either link c draws.generation_id (files_of g) (some new_files) t

    abbrev Placed : Tree → Type 0
    Placed t =
        IsPlaced out cert metadata permissions m e c g draws.staging draws.generation_id other
          another t

    framed-Shows : (t : Tree) → IsFramed m e c g t → Old t
    framed-Shows t p = record {
      current = ap (lookup "current") p.unlinked;
      holds = ap files_of p.retained;
    }

    framed_either : (t : Tree) → IsFramed m e c g t → OldOrNew t
    framed_either t p = inl (framed-Shows t p)

    -- There is nothing to migrate.
    no_migration :
        Triple Placed
          (migrate_legacy_compatibility_links draws permissions.group)
          (λ _ t. Placed t)
          OldOrNew
    unfolding migrate_legacy_compatibility_links observe
    no_migration = record {
      apply = λ d p.
          let h : needs_migration d.tree.entries ≡ false =
            ap needs_migration p.framed.unlinked ∙ settled in
          rw h p;
    }

    publish_rule :
        Triple
          (IsStaged m e c g draws.staging draws.generation_id [])
          (publish_generation out draws cert metadata permissions count days)
          (λ _ t. New t)
          OldOrNew
    unfolding publish_generation
    publish_rule =
        bind_rule (λ _ t. Placed t) _ _
          (weaken _ _ _ _ _ (λ _ t p. p) framed_either
            (stage_generation_rule out cert metadata permissions m e c g draws.staging
              draws.generation_id other another draws count days refl refl unlike))
          λ _.
            bind_rule (λ _ t. Placed t) _ _ no_migration
              λ _.
                bind_rule (λ _ t. New t) _ _
                  (strengthen _
                    (λ t p. (
                      framed-Shows t p.framed,
                      record {
                        current = ap (lookup "current") p.framed.unlinked;
                        holds = p.placed;
                      },
                    ))
                    (select_generation_directory_rule link c draws.generation_id (files_of g)
                      (some new_files)))
                  λ _.
                    bind_rule (λ _ t. New t) _ _
                      (weaken _ _ _ _ _ (λ _ t p. p) (λ t p. inr p)
                        ensure_compatibility_links-Shows)
                      λ _.
                        weaken _ _ _ _ _ (λ _ t p. p) (λ t p. inr p)
                          (tolerate_rule New (clean_up count days) (
                            strengthen _
                              (λ t p. (p, current-IsProtected draws.generation_id t flat p.current))
                              (clean_up-Shows _ _ _ count days)))

    -- The directory before the deployment: the names drawn are not in use.
    pub record IsReady (t : Tree) : Type 0 where
      pub framed : IsFramed m e c g t
      pub unused : lookup draws.generation_id t.generations ≡ none
      pub unstaged : lookup draws.staging t.generations ≡ none

    abbrev Staged : Tree → Type 0
    Staged t = IsStaged m e c g draws.staging draws.generation_id [] t

    -- A change of other parts of the tree.
    IsReady-too :
        (t : Tree) (a : Access) (b : Bool)
        → IsReady t
        → IsReady (record t { generations_access = a; has_generations = b })
    IsReady-too t a b p = record {
      framed = record {
        fresh = p.framed.fresh;
        unlinked = p.framed.unlinked;
        retained = p.framed.retained;
      };
      unused = p.unused;
      unstaged = p.unstaged;
    }

    made : Keeps IsReady mkdir_generations
    unfolding mkdir_generations
    made = call-Keeps _ λ t p. made_unless t t.has_generations p
      where
        made_unless : (t : Tree) (b : Bool) → IsReady t → IsReady (with_generations b t)
        made_unless t true p = p
        made_unless t false p = IsReady-too t t.fresh_access true p

    shared_generations :
        Keeps IsReady (configure_consumer_directories generations_dir permissions.group)
    unfolding set_access
    shared_generations =
        configure-Keeps generations_dir permissions.group
          λ f t p. IsReady-too t (f t.generations_access) t.has_generations p

    Staged-New :
        (t : Tree)
        → IsReady t
        → Staged (record t { generations = insert draws.staging (fresh_directory t) t.generations })
    Staged-New t p = record {
      framed = record {
        fresh = p.framed.fresh;
        unlinked = p.framed.unlinked;
        retained =
            lookup-insert_ne t.generations c draws.staging (fresh_directory t) other
            ∙ p.framed.retained;
      };
      staged = ap files_of (lookup-insert_self t.generations draws.staging (fresh_directory t));
      unused =
          lookup-insert_ne t.generations draws.generation_id draws.staging (fresh_directory t)
            another
          ∙ p.unused;
    }

    staging_made :
        Triple IsReady (mkdtemp (in_generations draws.staging)) (λ _ t. Staged t) OldOrNew
    unfolding mkdtemp make_subdirectory
    staging_made =
        call_rule (λ _ t. Staged t) OldOrNew (make_subdirectory (in_generations draws.staging))
          (λ t p. rw p.unstaged (Staged-New t p)) (λ t p. framed_either t p.framed)

    with_access-Staged :
        (f : Access → Access) (t : Tree) (o : Option Subdirectory)
        → lookup draws.staging t.generations ≡ o
        → Staged t
        → Staged (record t { generations = with_access f draws.staging o t.generations })
    with_access-Staged f t none q p = p
    with_access-Staged f t (some s) q p =
        let s' : Subdirectory = record s { access = f s.access } in
        record {
          framed = record {
            fresh = p.framed.fresh;
            unlinked = p.framed.unlinked;
            retained = lookup-insert_ne t.generations c draws.staging s' other ∙ p.framed.retained;
          };
          staged =
              ap files_of (lookup-insert_self t.generations draws.staging s')
              ∙ sym (ap files_of q)
              ∙ p.staged;
          unused =
              lookup-insert_ne t.generations draws.generation_id draws.staging s' another
              ∙ p.unused;
        }

    shared_staging :
        Keeps Staged (configure_consumer_directories (staging_dir draws.staging) permissions.group)
    unfolding set_access
    shared_staging =
        configure-Keeps (staging_dir draws.staging) permissions.group
          λ f t p. with_access-Staged f t (lookup draws.staging t.generations) refl p

    either_keeps : (d : Disk) → OldOrNew d.tree → OldOrNew (remove_staging draws.staging d).1.tree
    either_keeps d (inl p) =
        inl (
          after_keeps (remove_staging draws.staging) (remove_staging-Shows draws.staging other) d p)
    either_keeps d (inr p) = inr (
        after_keeps (remove_staging draws.staging) (remove_staging-Shows draws.staging another) d p)

    abbrev pub new_paths : String → DeploymentPaths
    new_paths target =
        deployment_paths (generation_path target draws.generation_id) (some draws.generation_id)

    answered :
        (paths : DeploymentPaths)
        → Triple New (pure paths) (λ answer t. New t × (answer ≡ paths)) OldOrNew
    answered paths = record { apply = λ d p. (p, refl) }

    -- Whatever fails, `current` is the old generation with its files or the new one with all of its
    -- files, and it is the new one if the deployment succeeds.
    pub deploy_generation_rule :
        (target : String)
        → Triple IsReady
            (deploy_generation out draws cert metadata permissions count days target)
            (λ paths t. New t × (paths ≡ new_paths target))
            OldOrNew
    unfolding deploy_generation
    deploy_generation_rule target =
        bind_rule (λ _ t. IsReady t) _ _
          (weaken _ _ _ _ _ (λ _ t p. p) (λ t p. framed_either t p.framed) made)
          λ _.
            bind_rule (λ _ t. IsReady t) _ _
              (weaken _ _ _ _ _ (λ _ t p. p) (λ t p. framed_either t p.framed) shared_generations)
              λ _.
                bind_rule (λ _ t. Staged t) _ _ staging_made
                  λ _.
                    bind_rule (λ _ t. Staged t) _ _
                      (weaken _ _ _ _ _ (λ _ t p. p) (λ t p. framed_either t p.framed)
                        shared_staging)
                      λ _.
                        bind_rule (λ _ t. New t) _ _
                          (finally_rule (λ _ t. New t) OldOrNew _ (remove_staging draws.staging)
                            (λ _ d p.
                              after_keeps (remove_staging draws.staging)
                                (remove_staging-Shows draws.staging another) d p)
                            either_keeps
                            (rewrap_rule (λ _ t. New t) OldOrNew
                              "failed to publish certificate generation" _ publish_rule))
                          λ _. answered (new_paths target)
