-- ===== src/Deployer/Migration.antt =====
-- The links that keep the paths of the layout without generations, and the migration of such a
-- layout (acme_api/deployer.py).
use acme_api.Common.{
  ℕ, String, Option, none, some, List, [], ◌∷◌, Bool, true, false, not, any, all, if◌then◌else◌,
  is_none, ◌&&◌,
}
use acme_api.Common.Dict.{lookup, insert}
use acme_api.Models.World.{Result, ok, err}
use acme_api.Deployer.Disk.{
  Tree, Folder, Entry, symlink, Io, ◌>>=◌, ◌>>◌, pure, call, finally, in_target, in_generations,
  in_folder, perform, link_to, replace_entry, missing, exists_already,
}
use acme_api.Deployer.Directories.{
  observe, fsync_directory, staging_dir, configure_consumer_directories, mkdtemp, replace_directory,
  rmtree_ignoring,
}
use acme_api.Deployer.Artifacts.{artifact_names}
use Prim.Native.String.{◌++◌}
use acme_api.Deployer.Selecting.{exists_generation, select_generation_directory}

abbrev is_symlink : Option Entry → Bool
is_symlink (some (symlink _)) = true
is_symlink _ = false

abbrev pub is_link : String → Folder → Bool
is_link name f = is_symlink (lookup name f)

abbrev pub is_present : String → Folder → Bool
is_present name f = not (is_none (lookup name f))

abbrev pub pending_name : String → String
pending_name name = "." ++ name ++ ".pending"

unfoldable pub make_compatibility_link : String → Io (Unit {0})
unfolding perform replace_entry
make_compatibility_link name = do
  perform in_target (link_to (pending_name name) ("current/" ++ name))
  replace_entry in_target (pending_name name) in_target name

unfoldable pub link_each : List String → Io (Unit {0})
unfolding make_compatibility_link observe
link_each [] = pure tt
link_each (name ∷ names) = do
  linked ← observe (λ t. is_link name t.entries)
  if linked then pure tt else make_compatibility_link name
  link_each names

-- `_ensure_compatibility_links`
unfoldable pub ensure_compatibility_links : Io (Unit {0})
unfolding link_each fsync_directory
ensure_compatibility_links = do link_each artifact_names; fsync_directory

add_to : String → String → Entry → Tree → Result (Unit {0}) × Tree
add_to staging name entry =
    in_folder (in_generations staging)
      λ t f. if is_none (lookup name f) then ok (insert name entry f) else err (exists_already name)

link_found : String → String → Tree → Option Entry → Result (Unit {0}) × Tree
unfolding add_to
link_found staging name t none = (err (missing name), t)
link_found staging name t (some entry) = add_to staging name entry t

-- `os.link` of an artifact into the staging directory.
link_file : String → String → Tree → Result (Unit {0}) × Tree
link_file staging name t = link_found staging name t (lookup name t.entries)

hard_link_each : String → List String → Io (Unit {0})
unfolding link_file link_found call
hard_link_each staging [] = pure tt
hard_link_each staging (name ∷ names) = do
  call (link_file staging name)
  hard_link_each staging names

-- `if staging_dir.exists(): shutil.rmtree(staging_dir, ignore_errors=True)`
unfoldable pub remove_staging : String → Io (Unit {0})
unfolding observe rmtree_ignoring
remove_staging name = observe (exists_generation name) >>= λ left.
    if left then rmtree_ignoring (in_generations name) else pure tt

-- The names that are drawn at random.
pub record Draws : Type 0 where
  pub generation_id : String
  pub staging : String
  pub legacy_id : String
  pub legacy_staging : String
  pub temporary : String

abbrev pub needs_migration : Folder → Bool
needs_migration f =
    any (λ name. is_present name f) artifact_names
    && not (all (λ name. is_link name f) artifact_names)

migrate : Draws → Option ℕ → Io (Unit {0})
unfolding configure_consumer_directories hard_link_each replace_directory
    select_generation_directory ensure_compatibility_links
migrate draws group = do
  configure_consumer_directories (staging_dir draws.legacy_staging) group
  hard_link_each draws.legacy_staging artifact_names
  fsync_directory
  replace_directory draws.legacy_staging draws.legacy_id
  fsync_directory
  select_generation_directory draws.legacy_id
  ensure_compatibility_links

-- `_migrate_legacy_compatibility_links`
unfoldable pub migrate_legacy_compatibility_links : Draws → Option ℕ → Io (Unit {0})
unfolding migrate observe mkdtemp finally remove_staging
migrate_legacy_compatibility_links draws group =
    observe (λ t. needs_migration t.entries) >>= λ needed.
    if needed
    then mkdtemp (in_generations draws.legacy_staging)
      >> finally (migrate draws group) (remove_staging draws.legacy_staging)
    else pure tt
