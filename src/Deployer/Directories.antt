-- ===== src/Deployer/Directories.antt =====
-- The calls of acme_api/deployer.py on whole directories: making, renaming and removing them, and
-- who may read them.
use acme_api.Common.{
  ℕ, String, Option, none, some, List, [], ◌∷◌, Bool, true, false, not, ◌==◌, ◌||◌,
}
use acme_api.Common.Dict.{Dict, lookup, insert, erase}
use acme_api.Models.World.{Result, ok, err, os_error}
use acme_api.Deployer.Disk.{
  Tree, Access, Subdirectory, Folder, Io, ◌>>=◌, ◌>>◌, pure, call, Place, in_target, in_temporary,
  in_generations, folder_at, perform, unlink, missing, exists_already,
}
use mathlib.Core.List.{map}
use Prim.Native.String.{◌++◌}

-- A question to the file system that never raises.
unfoldable pub observe : {A : Type 0} → (Tree → A) → Io A
observe f d = (ok (f d.tree), d)

-- `_fsync_directory`: it changes nothing that a reader sees.
unfoldable pub fsync_directory : Io (Unit {0})
unfolding call
fsync_directory = call (λ t. (ok tt, t))

-- The directories that get the group of the consumers.
pub data Shared : Type 0 where
  deployment_root target_dir generations_dir : Shared
  staging_dir : String → Shared

abbrev access_in : Option Subdirectory → Option Access
access_in none = none
access_in (some s) = some s.access

access_of : Shared → Tree → Option Access
access_of deployment_root t = some t.root_access
access_of target_dir t = some t.target_access
access_of generations_dir t = some t.generations_access
access_of (staging_dir name) t = access_in (lookup name t.generations)

abbrev pub with_access :
    (Access → Access) → String → Option Subdirectory → Dict Subdirectory → Dict Subdirectory
with_access f name none d = d
with_access f name (some s) d = insert name (record s { access = f s.access }) d

unfoldable pub set_access : (Access → Access) → Shared → Tree → Tree
set_access f deployment_root t = record t { root_access = f t.root_access }
set_access f target_dir t = record t { target_access = f t.target_access }
set_access f generations_dir t = record t { generations_access = f t.generations_access }
set_access f (staging_dir name) t = record t {
  generations = with_access f name (lookup name t.generations) t.generations;
}

abbrev found : Option Access → Result Access
found none = err (missing "directory")
found (some a) = ok a

unfoldable pub stat : Shared → Tree → Result Access × Tree
unfolding access_of
stat directory t = (found (access_of directory t), t)

-- 0o750
abbrev pub consumer_mode : ℕ
consumer_mode = 488

abbrev pub when : Bool → Io (Unit {0}) → Io (Unit {0})
when true m = m
when false m = pure tt

-- `_configure_consumer_directories`
unfoldable pub configure_consumer_directories : Shared → Option ℕ → Io (Unit {0})
unfolding stat access_of set_access call
configure_consumer_directories directory none = pure tt
configure_consumer_directories directory (some group) = do
  status ← call (stat directory)
  let group_changed = not (status.group == group)
  when group_changed (call λ t. (ok tt, set_access (λ a. record a { group = group }) directory t))
  when (group_changed || status.is_own)
      (call λ t. (ok tt, set_access (λ a. record a { mode = consumer_mode }) directory t))

abbrev pub with_generations : Bool → Tree → Tree
with_generations true t = t
with_generations false t = record t { has_generations = true; generations_access = t.fresh_access }

-- A directory as `tempfile.mkdtemp` makes it, with mode 0o700.
abbrev pub fresh_directory : Tree → Subdirectory
fresh_directory t = record {
  files = [];
  modified = t.now;
  access = record t.fresh_access { mode = 448 };
}

abbrev pub unless_present : String → Option Subdirectory → Tree → Tree → Result (Unit {0}) × Tree
unless_present name none t t' = (ok tt, t')
unless_present name (some _) t t' = (err (exists_already name), t)

unfoldable pub make_subdirectory : Place → Tree → Result (Unit {0}) × Tree
make_subdirectory in_target t = (err (exists_already "directory"), t)
make_subdirectory (in_temporary name) t =
    unless_present name (lookup name t.temporary) t
      (record t { temporary = insert name (fresh_directory t) t.temporary })
make_subdirectory (in_generations name) t =
    unless_present name (lookup name t.generations) t
      (record t { generations = insert name (fresh_directory t) t.generations })

-- `tempfile.mkdtemp`, with the name that it draws.
unfoldable pub mkdtemp : Place → Io (Unit {0})
unfolding make_subdirectory call
mkdtemp p = call (make_subdirectory p)

unfoldable pub mkdir_generations : Io (Unit {0})
unfolding call
mkdir_generations = call λ t. (ok tt, with_generations t.has_generations t)

abbrev pub moved :
    String → String → Tree → Option Subdirectory → Option Subdirectory → Result (Unit {0}) × Tree
moved a b t none there = (err (missing a), t)
moved a b t (some s) (some _) = (err (os_error ("[Errno 39] Directory not empty: " ++ b)), t)
moved a b t (some s) none = (ok tt, record t { generations = insert b s (erase a t.generations) })

unfoldable pub move_directory : String → String → Tree → Result (Unit {0}) × Tree
move_directory a b t = moved a b t (lookup a t.generations) (lookup b t.generations)

-- `os.replace` of a directory below `generations`; the ones in use there are never empty.
unfoldable pub replace_directory : String → String → Io (Unit {0})
unfolding move_directory call
replace_directory a b = call (move_directory a b)

abbrev names_of : Option Folder → List String
names_of none = []
names_of (some f) = map (λ (name, _). name) f

unfoldable pub names_at : Place → Tree → List String
names_at p t = names_of (folder_at p t)

unfoldable pub drop_directory : Place → Tree → Tree
drop_directory in_target t = t
drop_directory (in_temporary name) t = record t { temporary = erase name t.temporary }
drop_directory (in_generations name) t = record t { generations = erase name t.generations }

abbrev pub if_empty : Option Folder → Tree → Tree → Result (Unit {0}) × Tree
if_empty none t t' = (err (missing "directory"), t)
if_empty (some []) t t' = (ok tt, t')
if_empty (some (_ ∷ _)) t t' = (err (os_error "[Errno 39] Directory not empty"), t)

unfoldable pub rmdir_step : Place → Tree → Result (Unit {0}) × Tree
rmdir_step p t = if_empty (folder_at p t) t (drop_directory p t)

unfoldable pub rmdir : Place → Io (Unit {0})
unfolding rmdir_step drop_directory call
rmdir p = call (rmdir_step p)

unfoldable pub unlink_each : Place → List String → Io (Unit {0})
unfolding perform
unlink_each p [] = pure tt
unlink_each p (name ∷ names) = do perform p (unlink false name); unlink_each p names

-- `shutil.rmtree`, which stops at the first error.
unfoldable pub rmtree : Place → Io (Unit {0})
unfolding unlink_each rmdir observe names_at
rmtree p = do names ← observe (names_at p); unlink_each p names; rmdir p

-- The effect of a call whose error is ignored.
unfoldable pub ignoring : Io (Unit {0}) → Io (Unit {0})
ignoring m d = (ok tt, (m d).1)

unfoldable pub discard_each : Place → List String → Io (Unit {0})
unfolding perform ignoring
discard_each p [] = pure tt
discard_each p (name ∷ names) = do ignoring (perform p (unlink false name)); discard_each p names

-- `shutil.rmtree(..., ignore_errors=True)`, which goes on after an error.
unfoldable pub rmtree_ignoring : Place → Io (Unit {0})
unfolding discard_each rmdir ignoring observe names_at
rmtree_ignoring p = do names ← observe (names_at p); discard_each p names; ignoring (rmdir p)
