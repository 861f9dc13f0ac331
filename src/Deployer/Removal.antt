-- ===== src/Deployer/Removal.antt =====
-- The cleanup of generations on the disk (acme_api/deployer.py).
use acme_api.Common.{
  ℕ, ◌*◌, String, Option, none, some, List, [], ◌∷◌, Bool, true, false, not, ◌||◌, ltb,
  if◌then◌else◌, is_none, ◌&&◌,
}
use acme_api.Common.Dict.{Dict, lookup}
use acme_api.Common.Text.{has_char}
use acme_api.Models.World.{Result, ok, err, overflow}
use acme_api.Deployer.Disk.{
  Tree, Subdirectory, Entry, symlink, Io, ◌>>=◌, ◌>>◌, pure, call, in_generations,
}
use acme_api.Deployer.Directories.{fsync_directory, rmtree}
use acme_api.Deployer.Retention.{Generation, cleanup_generations, nanoseconds_per_day}
use mathlib.Core.List.{map}

-- What follows the last "/" of a path.
unfoldable pub last_component : String → String
last_component String.[] = ""
last_component (String.◌∷◌ c cs) =
    let rest = last_component cs in if has_char 47 (String.◌∷◌ c cs) then rest else String.◌∷◌ c cs

unfoldable pub link_component : Option Entry → Option String
unfolding last_component
link_component (some (symlink to)) = some (last_component to)
link_component _ = none

unfoldable pub current_id : Tree → Option String
unfolding link_component
current_id t = link_component (lookup "current" t.entries)

abbrev pub names_in : Option (List String) → List String
names_in none = []
names_in (some names) = names

abbrev pub pinned_ids : Tree → List String
pinned_ids t = names_in t.pins

abbrev pub listing : Dict Subdirectory → List Generation
listing = map (λ (name, s). record { name = name; is_directory = true; modified = s.modified })

abbrev pub too_long : Option ℕ → ℕ → Bool
too_long none now = false
too_long (some days) now = ltb now (days * nanoseconds_per_day)

unfoldable pub obsolete : Option ℕ → Option ℕ → Tree → List Generation
unfolding cleanup_generations current_id
obsolete count days t =
    cleanup_generations count days t.now (current_id t) (pinned_ids t) (listing t.generations)

unfoldable pub remove_each : List Generation → Io (Unit {0})
unfolding rmtree
remove_each [] = pure tt
remove_each (g ∷ gs) = do rmtree (in_generations g.name); remove_each gs

-- What there is to remove. A retention that reaches back before the calendar raises.
unfoldable pub chosen : Option ℕ → Option ℕ → Tree → Result (List Generation) × Tree
chosen count days t =
    if (is_none count && is_none days) || not t.has_generations
    then (ok [], t)
    else if too_long days t.now
    then (err overflow, t)
    else (ok (obsolete count days t), t)

unfoldable pub sync_if_removed : List Generation → Io (Unit {0})
sync_if_removed [] = pure tt
sync_if_removed (_ ∷ _) = fsync_directory

-- `cleanup_generations`, with what it removes from the disk.
unfoldable pub clean_up : Option ℕ → Option ℕ → Io (List Generation)
unfolding chosen obsolete remove_each sync_if_removed fsync_directory call
clean_up count days = do
  removed ← call (chosen count days)
  remove_each removed
  sync_if_removed removed
  pure removed
