-- ===== src/Deployer/Disk.antt =====
-- The directory of one certificate as acme_api/deployer.py finds and leaves it, and its calls of
-- the operating system. Any of these may raise an `OSError`: which ones do is the list `faults`, so
-- that a crash is a run in which every later call fails.
use acme_api.Common.{ℕ, String, Option, none, some, List, [], ◌∷◌, Bool, if◌then◌else◌}
use acme_api.Common.Dict.{Dict, lookup, insert, erase}
use acme_api.Models.World.{Result, ok, err, Failure, os_error, deployment, overflow}
use Prim.Native.String.{◌++◌}

-- The content, the permission bits and the group of a file; no group is the one of the process.
pub record FileData : Type 0 where
  pub text : String
  pub mode : ℕ
  pub group : Option ℕ

pub data Entry : Type 0 where
  regular : FileData → Entry
  symlink : String → Entry

abbrev pub Folder : Type 0
Folder = Dict Entry

-- What `stat` says of a directory; `is_own` that it belongs to the user of the process.
pub record Access : Type 0 where
  pub group : ℕ
  pub is_own : Bool
  pub mode : ℕ

-- A directory with files only, the time of its last change and its access.
pub record Subdirectory : Type 0 where
  pub files : Folder
  pub modified : ℕ
  pub access : Access

-- `entries` are the files and links in the directory of the certificate, `temporary` its
-- directories `.deploy-...`, `generations` the directories below `generations`, and `pins` the
-- names below `.pinned-generations`, if that exists. New files and directories get `fresh_mode` and
-- `fresh_access`; instants are nanoseconds.
pub record Tree : Type 0 where
  pub now : ℕ
  pub fresh_mode : ℕ
  pub fresh_access : Access
  pub root_access : Access
  pub target_access : Access
  pub generations_access : Access
  pub entries : Folder
  pub temporary : Dict Subdirectory
  pub has_generations : Bool
  pub generations : Dict Subdirectory
  pub pins : Option (List String)

-- Each element is the fate of one call: no fault, or the text of its `OSError`.
pub record Disk : Type 0 where
  pub tree : Tree
  pub faults : List (Option String)

abbrev pub Io : Type 0 → Type 0
Io A = Disk → Result A × Disk

infixl 5 ◌>>=◌ ◌>>◌
abbrev pub ◌>>=◌ : {A B : Type 0} → Io A → (A → Io B) → Io B
◌>>=◌ m f d = let (r, d') = m d in elim r [ ok a ↦ f a d' | err e ↦ (err e, d') ]

abbrev pub ◌>>◌ : {A B : Type 0} → Io A → Io B → Io B
m >> k = m >>= λ _. k

abbrev pub pure : {A : Type 0} → A → Io A
pure a d = (ok a, d)

abbrev pub raise : {A : Type 0} → Failure → Io A
raise e d = (err e, d)

abbrev pub on_tree : {A : Type 0} → List (Option String) → Result A × Tree → Result A × Disk
on_tree fs (r, t) = (r, record { tree = t; faults = fs })

abbrev pub attempt :
    {A : Type 0} → List (Option String) → (Tree → Result A × Tree) → Tree → Result A × Disk
attempt [] f t = on_tree [] (f t)
attempt (none ∷ fs) f t = on_tree fs (f t)
attempt (some message ∷ fs) f t = (err (os_error message), record { tree = t; faults = fs })

-- One call of the operating system.
unfoldable pub call : {A : Type 0} → (Tree → Result A × Tree) → Io A
call f d = attempt d.faults f d.tree

-- `try: m finally: c`, where `c` ignores its errors.
unfoldable pub finally : {A : Type 0} → Io A → Io (Unit {0}) → Io A
finally m c d = let (r, d') = m d in (r, (c d').1)

-- `except (OSError, OverflowError) as exc: raise DeploymentError(f"{prefix}: {exc}")`
abbrev pub as_deployment_error : {A : Type 0} → String → Result A → Result A
as_deployment_error prefix (ok a) = ok a
as_deployment_error prefix (err (os_error m)) = err (deployment (prefix ++ ": " ++ m))
as_deployment_error prefix (err overflow) = err (deployment (prefix ++ ": date value out of range"))
as_deployment_error prefix (err e) = err e

unfoldable pub rewrap : {A : Type 0} → String → Io A → Io A
rewrap prefix m d = let (r, d') = m d in (as_deployment_error prefix r, d')

-- The directories that hold files.
pub data Place : Type 0 where
  in_target : Place
  in_temporary in_generations : String → Place

abbrev pub touched : Tree → Folder → Subdirectory → Subdirectory
touched t f s = record s { files = f; modified = t.now }

abbrev pub files_of : Option Subdirectory → Option Folder
files_of none = none
files_of (some s) = some s.files

-- The directory at a place, if it exists.
abbrev pub folder_at : Place → Tree → Option Folder
folder_at in_target t = some t.entries
folder_at (in_temporary name) t = files_of (lookup name t.temporary)
folder_at (in_generations name) t = files_of (lookup name t.generations)

abbrev pub replaced :
    String → Tree → Folder → Option Subdirectory → Dict Subdirectory → Dict Subdirectory
replaced name t f none d = d
replaced name t f (some s) d = insert name (touched t f s) d

abbrev pub with_folder : Place → Folder → Tree → Tree
with_folder in_target f t = record t { entries = f }
with_folder (in_temporary name) f t = record t {
  temporary = replaced name t f (lookup name t.temporary) t.temporary;
}
with_folder (in_generations name) f t = record t {
  generations = replaced name t f (lookup name t.generations) t.generations;
}

abbrev pub missing : String → Failure
missing what = os_error ("[Errno 2] No such file or directory: " ++ what)

abbrev pub exists_already : String → Failure
exists_already what = os_error ("[Errno 17] File exists: " ++ what)

abbrev pub stored : Place → Tree → Result Folder → Result (Unit {0}) × Tree
stored p t (ok f) = (ok tt, with_folder p f t)
stored p t (err e) = (err e, t)

abbrev pub on_found :
    Place → (Tree → Folder → Result Folder) → Tree → Option Folder → Result (Unit {0}) × Tree
on_found p f t none = (err (missing "directory"), t)
on_found p f t (some folder) = stored p t (f t folder)

-- A change of the directory at a place.
abbrev pub in_folder : Place → (Tree → Folder → Result Folder) → Tree → Result (Unit {0}) × Tree
in_folder p f t = on_found p f t (folder_at p t)

-- `open(path, "wb")`: an empty file, or the same file emptied. (Through a link it would write the
-- file behind; no call opens a link.)
open_for_writing : String → Tree → Option Entry → Folder → Result Folder
open_for_writing name t (some (regular file)) f =
    ok (insert name (regular (record file { text = "" })) f)
open_for_writing name t _ f =
    ok (insert name (regular (record { text = ""; mode = t.fresh_mode; group = none })) f)

abbrev pub on_entry : (FileData → FileData) → String → Option Entry → Folder → Result Folder
on_entry step name (some (regular file)) f = ok (insert name (regular (step file)) f)
on_entry step name _ f = err (missing name)

-- `Path.symlink_to`
unfoldable pub make_link : String → String → Option Entry → Folder → Result Folder
make_link name to none f = ok (insert name (symlink to) f)
make_link name to (some _) f = err (exists_already name)

-- `Path.unlink`, which raises unless the file exists or `missing_ok` is set.
unfoldable pub unlink_entry : Bool → String → Option Entry → Folder → Result Folder
unlink_entry missing_ok name none f = if missing_ok then ok f else err (missing name)
unlink_entry missing_ok name (some _) f = ok (erase name f)

-- The calls of the operating system on one directory.
pub data Change : Type 0 where
  open_file : String → Change
  write : String → String → Change
  chown : String → ℕ → Change
  chmod : String → ℕ → Change
  sync : Change
  link_to : String → String → Change
  unlink : Bool → String → Change

unfoldable pub change : Change → Tree → Folder → Result Folder
unfolding open_for_writing make_link unlink_entry
change (open_file name) t f = open_for_writing name t (lookup name f) f
change (write name text) t f = on_entry (λ file. record file { text = text }) name (lookup name f) f
change (chown name group) t f =
    on_entry (λ file. record file { group = some group }) name (lookup name f) f
change (chmod name mode) t f = on_entry (λ file. record file { mode = mode }) name (lookup name f) f
change sync t f = ok f
change (link_to name to) t f = make_link name to (lookup name f) f
change (unlink missing_ok name) t f = unlink_entry missing_ok name (lookup name f) f

unfoldable pub perform : Place → Change → Io (Unit {0})
unfolding change call
perform p c = call (in_folder p (change c))

abbrev pub without_entry : Place → String → Option Folder → Tree → Tree
without_entry p name none t = t
without_entry p name (some f) t = with_folder p (erase name f) t

abbrev pub put_entry : Place → String → Entry → Tree → Option Folder → Result (Unit {0}) × Tree
put_entry p name entry t none = (err (missing name), t)
put_entry p name entry t (some f) = (ok tt, with_folder p (insert name entry f) t)

abbrev pub entry_in : String → Option Folder → Option Entry
entry_in name none = none
entry_in name (some f) = lookup name f

abbrev pub move_found :
    Place → String → Place → String → Tree → Option Entry → Result (Unit {0}) × Tree
move_found p a q b t none = (err (missing a), t)
move_found p a q b t (some entry) =
    let t' = without_entry p a (folder_at p t) t in put_entry q b entry t' (folder_at q t')

abbrev pub move_entry : Place → String → Place → String → Tree → Result (Unit {0}) × Tree
move_entry p a q b t = move_found p a q b t (entry_in a (folder_at p t))

-- `os.replace` of a file or a link.
unfoldable pub replace_entry : Place → String → Place → String → Io (Unit {0})
unfolding call
replace_entry p a q b = call (move_entry p a q b)
