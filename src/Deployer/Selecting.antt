-- ===== src/Deployer/Selecting.antt =====
-- The selection and the pin of a retained generation (acme_api/deployer.py).
use acme_api.Common.{
  String, Option, none, some, List, [], ◌∷◌, Bool, true, not, ◌||◌, if◌then◌else◌, str_eq, is_none,
  contains,
}
use acme_api.Common.Dict.{lookup}
use acme_api.Common.Text.{has_char}
use acme_api.Models.World.{ok, Failure, deployment}
use acme_api.Ports.Deployer.{DeploymentPaths}
use acme_api.Deployer.Disk.{
  Tree, Io, ◌>>=◌, ◌>>◌, pure, raise, call, in_target, perform, unlink, link_to, replace_entry,
}
use acme_api.Deployer.Directories.{observe, fsync_directory}
use acme_api.Deployer.Artifacts.{deployment_paths}
use Prim.Native.String.{◌++◌}

-- A name that is no single component of a path.
abbrev pub is_unsafe_id : String → Bool
is_unsafe_id id = str_eq id "" || (str_eq id "." || str_eq id "..") || has_char 47 id

abbrev pub exists_generation : String → Tree → Bool
exists_generation id t = not (is_none (lookup id t.generations))

abbrev pub no_generation : String → Failure
no_generation id = deployment ("retained generation does not exist: " ++ id)

-- `_retained_generation_directory`, and the test for the directory that follows it.
unfoldable pub require_generation : String → Io (Unit {0})
unfolding observe
require_generation id =
    if is_unsafe_id id
    then raise (no_generation id)
    else observe (exists_generation id) >>= λ found.
        if found then pure tt else raise (no_generation id)

-- `_select_generation_directory`
unfoldable pub select_generation_directory : String → Io (Unit {0})
unfolding perform replace_entry fsync_directory
select_generation_directory id = do
  perform in_target (unlink true ".current.pending")
  perform in_target (link_to ".current.pending" ("generations/" ++ id))
  replace_entry in_target ".current.pending" in_target "current"
  fsync_directory

-- The directory of a generation below the one of the certificate.
abbrev pub generation_path : String → String → String
generation_path target id = target ++ "/generations/" ++ id

unfoldable pub select_generation : String → String → Io DeploymentPaths
unfolding require_generation select_generation_directory
select_generation target id = do
  require_generation id
  select_generation_directory id
  pure (deployment_paths (generation_path target id) (some id))

abbrev pub add_pin : String → Option (List String) → Option (List String)
add_pin id none = some (id ∷ [])
add_pin id (some pins) = some (if contains id pins then pins else id ∷ pins)

abbrev pub make_pins : Option (List String) → Option (List String)
make_pins none = some []
make_pins (some pins) = some pins

unfoldable pub pin_generation : String → Io (Unit {0})
unfolding require_generation call fsync_directory
pin_generation id = do
  require_generation id
  call (λ t. (ok tt, record t { pins = make_pins t.pins }))
  call (λ t. (ok tt, record t { pins = add_pin id t.pins }))
  fsync_directory
