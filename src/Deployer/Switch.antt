-- ===== src/Deployer/Switch.antt =====
-- The switch of `current` to another generation (`_select_generation_directory` of
-- acme_api/deployer.py), whichever of its calls fail.
use acme_api.Common.{true, String, Option, none, some, ◌≡◌, ◌≢◌, refl, inl, inr, ◌⊎◌, ne-str_eq}
use acme_api.Common.Dict.{lookup-insert_ne, lookup, insert, erase, lookup-insert_self}
use acme_api.Deployer.Disk.{
  Tree, Folder, Entry, symlink, in_target, stored, perform, change, unlink, make_link,
  replace_entry, move_entry,
}
use acme_api.Deployer.Directories.{fsync_directory}
use acme_api.Deployer.Selecting.{select_generation_directory}
use acme_api.Deployer.Shown.{Shows, unlink-Shows, fsync-Shows, with_entries-Shows}
use acme_api.Deployer.Triples.{Triple, PostTree, call_rule, bind_rule, weaken, both-Keeps}
use Prim.Native.String.{◌++◌}

pending-current : ◌≢◌ {A = String} ".current.pending" "current"
pending-current = ne-str_eq ".current.pending" "current" refl

module _ (link : Option Entry) (c id : String) (v w : Option Folder) where
  -- As before the switch, and as after it.
  abbrev Before : Tree → Type 0
  Before t = Shows link c v t × Shows link id w t

  abbrev pub After : Tree → Type 0
  After t = Shows (some (symlink ("generations/" ++ id))) id w t

  abbrev pub Either : Tree → Type 0
  Either t = Shows link c v t ⊎ After t

  Before-Either : (t : Tree) → Before t → Either t
  Before-Either t (p, _) = inl p

  Pending : Tree → Type 0
  Pending t =
      Before t × (lookup ".current.pending" t.entries ≡ some (symlink ("generations/" ++ id)))

  linked :
      (t : Tree) (o : Option Entry)
      → Before t
      → PostTree
          (λ _ t. Pending t)
          Either
          (stored in_target t (make_link ".current.pending" ("generations/" ++ id) o t.entries))
  unfolding Pending make_link
  linked t (some _) p = Before-Either t p
  linked t none (p, q) =
      let f = insert ".current.pending" (symlink ("generations/" ++ id)) t.entries in
      let e : lookup "current" f ≡ lookup "current" t.entries =
        lookup-insert_ne t.entries "current" ".current.pending" (symlink ("generations/" ++ id))
          pending-current in
      (
        (with_entries-Shows f t e p, with_entries-Shows f t e q),
        lookup-insert_self t.entries ".current.pending" (symlink ("generations/" ++ id)),
      )

  switched :
      (t : Tree)
      → Pending t
      → PostTree
          (λ _ t. After t)
          Either
          (move_entry in_target ".current.pending" in_target "current" t)
  unfolding Pending
  switched t ((p, q), e) = rw e (record {
    current =
        lookup-insert_self (erase ".current.pending" t.entries) "current"
          (symlink ("generations/" ++ id));
    holds = q.holds;
  })

  -- At any point `current` is the old entry or the new one, and it is the new one at the end.
  pub select_generation_directory_rule :
      Triple Before (select_generation_directory id) (λ _ t. After t) Either
  unfolding select_generation_directory perform change replace_entry fsync_directory Pending
  select_generation_directory_rule =
      bind_rule (λ _ t. Before t) _ _
        (weaken _ _ _ _ _ (λ _ t p. p) Before-Either
          (both-Keeps (perform in_target (unlink true ".current.pending"))
            (unlink-Shows ".current.pending" pending-current)
            (unlink-Shows ".current.pending" pending-current)))
        λ _.
          bind_rule (λ _ t. Pending t) _ _
            (call_rule (λ _ t. Pending t) Either _
              (λ t p. linked t (lookup ".current.pending" t.entries) p) Before-Either)
            λ _.
              bind_rule (λ _ t. After t) _ _
                (call_rule (λ _ t. After t) Either _ switched (λ t p. Before-Either t p.0))
                λ _. weaken _ _ _ _ _ (λ _ t p. p) (λ t p. inr p) fsync-Shows
