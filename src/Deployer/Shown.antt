-- ===== src/Deployer/Shown.antt =====
-- What readers of the directory see, and the calls of acme_api/deployer.py that do not change it.
use acme_api.Deployer.Artifacts.{artifact_names}
use acme_api.Common.{
  or_false, str_eq, ◌||◌, ne-str_eq, All, String, Option, none, some, List, [], ◌∷◌, ◌≡◌, ◌≢◌, refl,
  ◌∙◌, ap, Bool, true, false, if◌then◌else◌,
}
use acme_api.Common.Dict.{Dict, lookup, insert, erase, lookup-insert_ne, lookup-erase_ne}
use acme_api.Models.World.{Result, ok, err}
use acme_api.Deployer.Disk.{
  make_link, unlink_entry, symlink, Tree, Subdirectory, Folder, Entry, pure, in_target,
  in_generations, folder_at, with_folder, in_folder, on_found, stored, replaced, touched, files_of,
  Change, change, perform, link_to, unlink, replace_entry, move_found,
}
use acme_api.Deployer.Directories.{
  fsync_directory, rmdir, rmtree, rmtree_ignoring, unlink_each, discard_each, if_empty, names_at,
}
use acme_api.Deployer.Migration.{
  ensure_compatibility_links, link_each, make_compatibility_link, pending_name, is_link,
  remove_staging,
}
use acme_api.Deployer.Selecting.{exists_generation}
use Prim.Native.String.{◌++◌}
use acme_api.Deployer.Triples.{
  Keeps, call-Keeps, observe-Keeps, pure-Keeps, bind-Keeps, ignoring-Keeps,
}

-- `current` is the entry `link`, and the generation `k` has the files `v`.
pub record Shows (link : Option Entry) (k : String) (v : Option Folder) (t : Tree) : Type 0 where
  pub current : lookup "current" t.entries ≡ link
  pub holds : files_of (lookup k t.generations) ≡ v

lookup-replaced :
    (name k : String) (t : Tree) (f : Folder) (o : Option Subdirectory) (d : Dict Subdirectory)
    → name ≢ k
    → lookup k (replaced name t f o d) ≡ lookup k d
lookup-replaced name k t f none d ne = refl
lookup-replaced name k t f (some s) d ne = lookup-insert_ne d k name (touched t f s) ne

module _ {link : Option Entry} {k : String} {v : Option Folder} where
  -- A change of another generation.
  pub with_folder-Shows :
      (name : String) (f : Folder) (t : Tree)
      → name ≢ k
      → Shows link k v t
      → Shows link k v (with_folder (in_generations name) f t)
  with_folder-Shows name f t ne p = record {
    current = p.current;
    holds =
        ap files_of (lookup-replaced name k t f (lookup name t.generations) t.generations ne)
        ∙ p.holds;
  }

  -- A change of the target directory that leaves `current` alone.
  pub with_entries-Shows :
      (f : Folder) (t : Tree)
      → lookup "current" f ≡ lookup "current" t.entries
      → Shows link k v t
      → Shows link k v (with_folder in_target f t)
  with_entries-Shows f t e p = record { current = e ∙ p.current; holds = p.holds }

  stored-Shows :
      (name : String) (t : Tree) (r : Result Folder)
      → name ≢ k
      → Shows link k v t
      → Shows link k v (stored (in_generations name) t r).1
  stored-Shows name t (ok f) ne p = with_folder-Shows name f t ne p
  stored-Shows name t (err e) ne p = p

  on_found-Shows :
      (name : String) (step : Tree → Folder → Result Folder) (t : Tree) (o : Option Folder)
      → name ≢ k
      → Shows link k v t
      → Shows link k v (on_found (in_generations name) step t o).1
  on_found-Shows name step t none ne p = p
  on_found-Shows name step t (some f) ne p = stored-Shows name t (step t f) ne p

  perform-Shows :
      (name : String) (x : Change)
      → name ≢ k
      → Keeps (Shows link k v) (perform (in_generations name) x)
  unfolding perform
  perform-Shows name x ne =
      call-Keeps (in_folder (in_generations name) (change x))
        λ t p. on_found-Shows name (change x) t (folder_at (in_generations name) t) ne p

  pub fsync-Shows : Keeps (Shows link k v) fsync_directory
  unfolding fsync_directory
  fsync-Shows = call-Keeps _ λ t p. p

  if_empty-Shows :
      (name : String) (o : Option Folder) (t t' : Tree)
      → Shows link k v t
      → Shows link k v t'
      → Shows link k v (if_empty o t t').1
  if_empty-Shows name none t t' p q = p
  if_empty-Shows name (some []) t t' p q = q
  if_empty-Shows name (some (_ ∷ _)) t t' p q = p

  rmdir-Shows : (name : String) → name ≢ k → Keeps (Shows link k v) (rmdir (in_generations name))
  unfolding rmdir
  rmdir-Shows name ne = call-Keeps _ λ t p.
      if_empty-Shows name (folder_at (in_generations name) t) t
        (record t { generations = erase name t.generations }) p
        (record {
          current = p.current;
          holds = ap files_of (lookup-erase_ne t.generations k name ne) ∙ p.holds;
        })

  unlink_each-Shows :
      (name : String) (names : List String)
      → name ≢ k
      → Keeps (Shows link k v) (unlink_each (in_generations name) names)
  unfolding unlink_each
  unlink_each-Shows name [] ne = pure-Keeps tt
  unlink_each-Shows name (x ∷ xs) ne =
      bind-Keeps _ _ (perform-Shows name (unlink false x) ne) λ _. unlink_each-Shows name xs ne

  discard_each-Shows :
      (name : String) (names : List String)
      → name ≢ k
      → Keeps (Shows link k v) (discard_each (in_generations name) names)
  unfolding discard_each
  discard_each-Shows name [] ne = pure-Keeps tt
  discard_each-Shows name (x ∷ xs) ne =
      bind-Keeps _ _ (ignoring-Keeps _ (perform-Shows name (unlink false x) ne))
        λ _. discard_each-Shows name xs ne

  -- The removal of another generation, complete or not.
  pub rmtree-Shows :
      (name : String) → name ≢ k → Keeps (Shows link k v) (rmtree (in_generations name))
  unfolding rmtree
  rmtree-Shows name ne =
      bind-Keeps _ _ (observe-Keeps (names_at (in_generations name)))
        λ names. bind-Keeps _ _ (unlink_each-Shows name names ne) λ _. rmdir-Shows name ne

  rmtree_ignoring-Shows :
      (name : String) → name ≢ k → Keeps (Shows link k v) (rmtree_ignoring (in_generations name))
  unfolding rmtree_ignoring
  rmtree_ignoring-Shows name ne =
      bind-Keeps _ _ (observe-Keeps (names_at (in_generations name))) λ names.
        bind-Keeps _ _ (discard_each-Shows name names ne)
          λ _. ignoring-Keeps _ (rmdir-Shows name ne)

  pub remove_staging-Shows :
      (name : String) → name ≢ k → Keeps (Shows link k v) (remove_staging name)
  unfolding remove_staging
  remove_staging-Shows name ne = bind-Keeps _ _ (observe-Keeps (exists_generation name)) if_left
    where
      if_left :
          (left : Bool)
          → Keeps (Shows link k v) (if left then rmtree_ignoring (in_generations name) else pure tt)
      if_left true = rmtree_ignoring-Shows name ne
      if_left false = pure-Keeps tt

apart :
    (name : String)
    → (str_eq name "current" || str_eq (pending_name name) "current") ≡ false
    → (name ≢ "current") × (pending_name name ≢ "current")
apart name h =
    let (p, q) = or_false (str_eq name "current") _ h in
    (ne-str_eq name "current" p, ne-str_eq (pending_name name) "current" q)

-- Renames and links in the target directory, of other names than `current`.
module _ {link : Option Entry} {k : String} {v : Option Folder} where
  link_to-Shows :
      (name to : String)
      → name ≢ "current"
      → Keeps (Shows link k v) (perform in_target (link_to name to))
  unfolding perform change
  link_to-Shows name to ne = call-Keeps _ λ t p. linked t (lookup name t.entries) p
    where
      linked :
          (t : Tree) (o : Option Entry)
          → Shows link k v t
          → Shows link k v (stored in_target t (make_link name to o t.entries)).1
      linked t none p =
          with_entries-Shows (insert name (symlink to) t.entries) t
            (lookup-insert_ne t.entries "current" name (symlink to) ne) p
      linked t (some _) p = p

  pub unlink-Shows :
      (name : String)
      → name ≢ "current"
      → Keeps (Shows link k v) (perform in_target (unlink true name))
  unfolding perform change
  unlink-Shows name ne = call-Keeps _ λ t p. unlinked t (lookup name t.entries) p
    where
      unlinked :
          (t : Tree) (o : Option Entry)
          → Shows link k v t
          → Shows link k v (stored in_target t (unlink_entry true name o t.entries)).1
      unlinked t none p = with_entries-Shows t.entries t refl p
      unlinked t (some _) p =
          with_entries-Shows (erase name t.entries) t (lookup-erase_ne t.entries "current" name ne)
            p

  move_found-Shows :
      (a b : String) (t : Tree) (o : Option Entry)
      → a ≢ "current"
      → b ≢ "current"
      → Shows link k v t
      → Shows link k v (move_found in_target a in_target b t o).1
  move_found-Shows a b t none na nb p = p
  move_found-Shows a b t (some entry) na nb p =
      with_entries-Shows (insert b entry (erase a t.entries)) _
        (lookup-insert_ne (erase a t.entries) "current" b entry nb)
        (with_entries-Shows (erase a t.entries) t (lookup-erase_ne t.entries "current" a na) p)

  replace-Shows :
      (a b : String)
      → a ≢ "current"
      → b ≢ "current"
      → Keeps (Shows link k v) (replace_entry in_target a in_target b)
  unfolding replace_entry
  replace-Shows a b na nb = call-Keeps _ λ t p. move_found-Shows a b t (lookup a t.entries) na nb p

  link_each-Shows :
      (names : List String)
      → All (λ name. (name ≢ "current") × (pending_name name ≢ "current")) names
      → Keeps (Shows link k v) (link_each names)
  unfolding link_each make_compatibility_link
  link_each-Shows [] h = pure-Keeps tt
  link_each-Shows (name ∷ names) ((ne, pending), rest) =
      bind-Keeps _ _ (observe-Keeps (λ t. is_link name t.entries))
        λ linked. bind-Keeps _ _ (unless_linked linked) λ _. link_each-Shows names rest
    where
      unless_linked :
          (linked : Bool)
          → Keeps (Shows link k v) (if linked then pure tt else make_compatibility_link name)
      unless_linked true = pure-Keeps tt
      unless_linked false =
          bind-Keeps _ _ (link_to-Shows (pending_name name) ("current/" ++ name) pending)
            λ _. replace-Shows (pending_name name) name pending ne

  pub ensure_compatibility_links-Shows : Keeps (Shows link k v) ensure_compatibility_links
  unfolding ensure_compatibility_links
  ensure_compatibility_links-Shows =
      bind-Keeps _ _
        (link_each-Shows artifact_names
          (apart _ refl, (apart _ refl, (apart _ refl, (apart _ refl, (apart _ refl, tt))))))
        λ _. fsync-Shows
