-- ===== src/Deployer/DiskTests.antt =====
-- Deployments of acme_api/deployer.py on a concrete disk, and the theorems at concrete data.
use acme_api.Common.{
  String, Option, none, some, List, [], ◌∷◌, ◌≡◌, ◌≢◌, refl, true, false, ◌⊎◌, ◌↔◌, All, ne-str_eq,
}
use acme_api.Common.Dict.{lookup}
use acme_api.Models.World.{ok, err}
use acme_api.Ports.Deployer.{DeploymentOptions}
use acme_api.Samples.{issuance}
use acme_api.Deployer.Disk.{
  Disk, Tree, Access, Subdirectory, Folder, Entry, regular, symlink, files_of, ◌>>◌, exists_already,
}
use acme_api.Deployer.Artifacts.{Outside, source_paths}
use acme_api.Deployer.Migration.{Draws, ensure_compatibility_links}
use acme_api.Deployer.Removal.{clean_up}
use acme_api.Deployer.Selecting.{pin_generation, select_generation, is_unsafe_id}
use acme_api.Deployer.Sources.{validate_source_files}
use acme_api.Deployer.Deployment.{deploy_issuance_result}
use acme_api.Deployer.Shown.{Shows}
use acme_api.Deployer.Guarantees.{IsPublished, deployment_atomic}
use acme_api.Deployer.Pinning.{IsSelected, select_generation_atomic, pin_survives}
use acme_api.Deployer.Accepted.{IsDeployable, validate_accepts, interrupted_link_blocks}
use acme_api.Deployer.Triples.{Post}
use Prim.Native.String.{◌++◌}

abbrev access : Access
access = record { group = 0; is_own = true; mode = 493 }

abbrev pem : String → Entry
pem text = regular (record { text = text; mode = 420; group = none })

abbrev first_generation : Subdirectory
first_generation = record {
  files = ("cert.pem", pem "old") ∷ ("privkey.pem", pem "old key") ∷ [];
  modified = 1;
  access = access;
}

abbrev links : Folder
links =
    ("current", symlink "generations/g1")
    ∷ ("cert.pem", symlink "current/cert.pem")
    ∷ ("chain.pem", symlink "current/chain.pem")
    ∷ ("fullchain.pem", symlink "current/fullchain.pem")
    ∷ ("privkey.pem", symlink "current/privkey.pem")
    ∷ ("metadata.json", symlink "current/metadata.json")
    ∷ []

abbrev tree_with : Folder → Tree
tree_with entries = record {
  now = 5;
  fresh_mode = 420;
  fresh_access = access;
  root_access = access;
  target_access = access;
  generations_access = access;
  entries = entries;
  temporary = [];
  has_generations = true;
  generations = ("g1", first_generation) ∷ [];
  pins = none;
}

-- The operating system fails at a given call of the deployment.
abbrev failing_at : List (Option String) → Disk
failing_at faults = record { tree = tree_with links; faults = faults }

abbrev draws : Draws
draws = record {
  generation_id = "g2";
  staging = ".generation-x";
  legacy_id = "legacy-y";
  legacy_staging = ".legacy-z";
  temporary = ".deploy-t";
}

abbrev outside : Outside
outside = record {
  source = λ path. record {
    is_file = true;
    is_symlink = false;
    is_regular = true;
    resolved = path;
    text = "text of " ++ path;
  };
  resolve = λ path. path;
  sha256 = λ text. "digest";
  to_json = λ payload. "metadata";
  repr = λ s. s;
}

abbrev options : DeploymentOptions
options = record {
  permissions_cert = 420;
  permissions_key = 384;
  artifact_group_id = some 7;
  issuer = none;
  allowed_source_roots = some ("/acme" ∷ []);
  generation = record { enabled = true; retention_count = some 1; retention_days = none };
}

abbrev generation_after : Disk → Option Folder
generation_after d = files_of (lookup "g2" d.tree.generations)

-- A deployment without faults removes the old generation, whose retention has run out.
deployed : Disk
unfolding deploy_issuance_result
deployed = (deploy_issuance_result outside draws issuance "/certificates" options (failing_at [])).1

switched : lookup "current" deployed.tree.entries ≡ some (symlink "generations/g2")
unfolding deployed
switched = refl

old_removed : lookup "g1" deployed.tree.generations ≡ none
unfolding deployed
old_removed = refl

staging_removed : lookup ".generation-x" deployed.tree.generations ≡ none
unfolding deployed
staging_removed = refl

deployment_atomic_example :
    Post
      (λ paths t.
        IsPublished outside draws issuance "/certificates" options "example.org" t
        × (paths.generation_id ≡ some "g2"))
      (λ t.
        Shows
          (some (symlink "generations/g1"))
          "g1"
          (some (("cert.pem", pem "old") ∷ ("privkey.pem", pem "old key") ∷ []))
          t
        ⊎ IsPublished outside draws issuance "/certificates" options "example.org" t)
      (deploy_issuance_result outside draws issuance "/certificates" options
        (failing_at (none ∷ none ∷ none ∷ none ∷ none ∷ some "disk full" ∷ [])))
deployment_atomic_example =
    deployment_atomic outside draws issuance "/certificates" options "example.org"
      (failing_at (none ∷ none ∷ none ∷ none ∷ none ∷ some "disk full" ∷ [])) "g1" refl refl
      (ne-str_eq ".generation-x" "g1" refl) (ne-str_eq "g2" "g1" refl)
      (ne-str_eq ".generation-x" "g2" refl) refl refl refl refl

select_generation_atomic_example :
    Post
      (λ paths t.
        IsSelected "/certificates/example.org" "g1" (failing_at []) "g1" t
        × (is_unsafe_id "g1" ≡ false)
        × (lookup "g1" (tree_with links).generations ≢ none)
        × (paths.generation_id ≡ some "g1"))
      (λ t.
        Shows
          (some (symlink "generations/g1"))
          "g1"
          (some (("cert.pem", pem "old") ∷ ("privkey.pem", pem "old key") ∷ []))
          t
        ⊎ IsSelected "/certificates/example.org" "g1" (failing_at []) "g1" t)
      (select_generation "/certificates/example.org" "g1" (failing_at []))
select_generation_atomic_example =
    select_generation_atomic "/certificates/example.org" "g1" (failing_at []) "g1"

pin_survives_example :
    Post
      (λ _ t.
        Shows
          (some (symlink "generations/g2"))
          "g2"
          (files_of (lookup "g2" deployed.tree.generations))
          t)
      (λ t.
        Shows
          (some (symlink "generations/g2"))
          "g2"
          (files_of (lookup "g2" deployed.tree.generations))
          t)
      ((pin_generation "g2" >> clean_up (some 0) none) deployed)
unfolding deployed
pin_survives_example = pin_survives "g2" (some 0) none deployed

validate_accepts_example :
    (validate_source_files outside (source_paths issuance.cert) (some ("/acme" ∷ [])) ≡ ok tt)
    ↔ All (IsDeployable outside (some ("/acme" ∷ []))) (source_paths issuance.cert)
validate_accepts_example =
    validate_accepts outside (some ("/acme" ∷ [])) (source_paths issuance.cert)

accepted : validate_source_files outside (source_paths issuance.cert) (some ("/acme" ∷ [])) ≡ ok tt
unfolding validate_source_files
accepted = refl

interrupted_link_blocks_example :
    let d : Disk = record {
      tree =
          (ensure_compatibility_links
            (record { tree = tree_with []; faults = none ∷ some "killed" ∷ [] })).1.tree;
      faults = [];
    } in
    ensure_compatibility_links d ≡ (err (exists_already ".cert.pem.pending"), d)
interrupted_link_blocks_example = interrupted_link_blocks (tree_with []) "killed" refl refl
