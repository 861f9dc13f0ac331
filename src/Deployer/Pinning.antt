-- ===== src/Deployer/Pinning.antt =====
-- The selection and the pin of a generation (acme_api/deployer.py), whichever of their calls fail.
use acme_api.Common.{
  ℕ, String, Option, none, some, List, ◌≡◌, ◌≢◌, refl, Bool, true, false, not, ◌⊎◌, inl, inr, arith,
  eq_iff, contains, is_none, if◌then◌else◌, Bool-cases, ap, ◌∙◌,
}
use acme_api.Common.Dict.{lookup}
use acme_api.Deployer.Disk.{Disk, Tree, Folder, Entry, symlink, files_of, ◌>>=◌, ◌>>◌, pure, raise}
use acme_api.Deployer.Directories.{observe, fsync_directory}
use acme_api.Deployer.Artifacts.{deployment_paths}
use acme_api.Deployer.Removal.{names_in, clean_up, current_id}
use acme_api.Deployer.Selecting.{
  is_unsafe_id, exists_generation, no_generation, require_generation, select_generation_directory,
  generation_path, select_generation, pin_generation, add_pin, make_pins,
}
use acme_api.Deployer.Shown.{Shows}
use acme_api.Deployer.Switch.{select_generation_directory_rule}
use acme_api.Deployer.Cleaning.{IsProtected, clean_up-Shows}
use acme_api.Deployer.Triples.{Triple, Post, call_rule, bind_rule, weaken}
use Prim.Native.String.{◌++◌}

not-none : {A : Type 0} (o : Option A) → not (is_none o) ≡ true → o ≢ none
not-none none h e = ground arith
not-none (some a) h e = ground arith

module _ (id : String) (P : Tree → Type 0) where
  -- What the test for a retained generation lets through.
  require_rule :
      Triple P
        (require_generation id)
        (λ _ t. P t × (is_unsafe_id id ≡ false) × (lookup id t.generations ≢ none))
        P
  unfolding require_generation observe
  require_rule = by_safety (is_unsafe_id id) refl
    where
      by_presence :
          (d : Disk)
          → P d.tree
          → (b : Bool) → exists_generation id d.tree ≡ b
          → is_unsafe_id id ≡ false
          → Post
              (λ _ t. P t × (is_unsafe_id id ≡ false) × (lookup id t.generations ≢ none))
              P
              ((if b then pure tt else raise (no_generation id)) d)
      by_presence d p true e h = (p, h, not-none (lookup id d.tree.generations) e)
      by_presence d p false e h = p

      by_safety :
          (b : Bool)
          → is_unsafe_id id ≡ b
          → Triple P
              (if b
                then raise (no_generation id)
                else observe (exists_generation id) >>= λ found.
                    if found then pure tt else raise (no_generation id))
              (λ _ t. P t × (is_unsafe_id id ≡ false) × (lookup id t.generations ≢ none))
              P
      by_safety true h = record { apply = λ d p. p }
      by_safety false h = record {
        apply = λ d p. by_presence d p (exists_generation id d.tree) refl h;
      }

module _ (target id : String) (d : Disk) (c : String) where
  abbrev old_link : Option Entry
  old_link = lookup "current" d.tree.entries

  abbrev files_at : String → Option Folder
  files_at k = files_of (lookup k d.tree.generations)

  abbrev pub IsSelected : Tree → Type 0
  IsSelected t = Shows (some (symlink ("generations/" ++ id))) id (files_at id) t

  abbrev Start : Tree → Type 0
  Start t =
      (Shows old_link c (files_at c) t × Shows old_link id (files_at id) t)
      × (t.generations ≡ d.tree.generations)

  -- A selection succeeds only for the name of a generation that exists; then `current` points to
  -- it, with the files that it had. Whatever fails, `current` and any generation are as they were,
  -- or the selection is complete.
  pub select_generation_atomic :
      Post
        (λ paths t.
          IsSelected t
          × (is_unsafe_id id ≡ false)
          × (lookup id d.tree.generations ≢ none)
          × (paths.generation_id ≡ some id))
        (λ t. Shows old_link c (files_at c) t ⊎ IsSelected t)
        (select_generation target id d)
  unfolding select_generation
  select_generation_atomic =
      (bind_rule (λ _ t. Start t × (is_unsafe_id id ≡ false) × (lookup id t.generations ≢ none))
          (require_generation id)
          (λ _.
            select_generation_directory id
            >> pure (deployment_paths (generation_path target id) (some id)))
          (weaken _ _ _ _ _ (λ _ t p. p) (λ t p. inl p.0.0) (require_rule id Start))
          λ _. after_test).apply
        d ((record { current = refl; holds = refl }, record { current = refl; holds = refl }), refl)
    where
      after_test :
          Triple
            (λ t. Start t × (is_unsafe_id id ≡ false) × (lookup id t.generations ≢ none))
            (select_generation_directory id
              >> pure (deployment_paths (generation_path target id) (some id)))
            (λ paths t.
              IsSelected t
              × (is_unsafe_id id ≡ false)
              × (lookup id d.tree.generations ≢ none)
              × (paths.generation_id ≡ some id))
            (λ t. Shows old_link c (files_at c) t ⊎ IsSelected t)
      after_test = record {
        apply = λ d' (((p, q), e), safe, there).
            (bind_rule (λ _ t. IsSelected t) (select_generation_directory id)
                (λ _. pure (deployment_paths (generation_path target id) (some id)))
                (select_generation_directory_rule old_link c id (files_at c) (files_at id))
                λ _. record {
                  apply = λ d'' r. (r, safe, (λ n. there (ap (lookup id) e ∙ n)), refl);
                }).apply
              d' (p, q);
      }

contains-add_pin :
    (id : String) (pins : Option (List String)) → contains id (names_in (add_pin id pins)) ≡ true
contains-add_pin id none = rw ((eq_iff id id).1 refl) refl
contains-add_pin id (some pins) = elim (Bool-cases (contains id pins)) [
  | inl h ↦ rw h h
  | inr h ↦ rw (h, (eq_iff id id).1 refl) refl
]

module _ (id : String) (link : Option Entry) (files : Option Folder) where
  abbrev Seen : Tree → Type 0
  Seen t = Shows link id files t

  with_pins-Seen :
      (pins : Option (List String)) (t : Tree) → Seen t → Seen (record t { pins = pins })
  with_pins-Seen pins t p = record { current = p.current; holds = p.holds }

  pin_protects : (t : Tree) → IsProtected id (record t { pins = add_pin id t.pins })
  unfolding current_id
  pin_protects t = rw (contains-add_pin id t.pins) (ground arith)

  pin_rule : Triple Seen (pin_generation id) (λ _ t. Seen t × IsProtected id t) Seen
  unfolding pin_generation fsync_directory
  pin_rule =
      bind_rule (λ _ t. Seen t) _ _
        (weaken _ _ _ _ _ (λ _ t p. p.0) (λ t p. p) (require_rule id Seen))
        λ _.
          bind_rule (λ _ t. Seen t) _ _
            (call_rule (λ _ t. Seen t) Seen _ (λ t p. with_pins-Seen (make_pins t.pins) t p)
              (λ t p. p))
            λ _.
              bind_rule (λ _ t. Seen t × IsProtected id t) _ _
                (call_rule (λ _ t. Seen t × IsProtected id t) Seen _
                  (λ t p. (with_pins-Seen (add_pin id t.pins) t p, pin_protects t)) (λ t p. p))
                λ _. call_rule (λ _ t. Seen t × IsProtected id t) Seen _ (λ t p. p) (λ t p. p.0)

-- A pinned generation is left alone by the cleanup that follows, however short the retention, and
-- so is `current`: also if calls fail on the way.
pub pin_survives :
    (id : String) (count days : Option ℕ) (d : Disk)
    → Post
        (λ _ t.
          Shows (lookup "current" d.tree.entries) id (files_of (lookup id d.tree.generations)) t)
        (λ t.
          Shows (lookup "current" d.tree.entries) id (files_of (lookup id d.tree.generations)) t)
        ((pin_generation id >> clean_up count days) d)
pin_survives id count days d =
    let link = lookup "current" d.tree.entries in
    let files = files_of (lookup id d.tree.generations) in
    (bind_rule (λ _ t. Shows link id files t × IsProtected id t) (pin_generation id)
        (λ _. clean_up count days) (pin_rule id link files)
        λ _. clean_up-Shows link id files count days).apply
      d (record { current = refl; holds = refl })
