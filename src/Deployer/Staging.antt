-- ===== src/Deployer/Staging.antt =====
-- What acme_api/deployer.py leaves in the staging directory of a generation while it writes it.
use acme_api.Common.{ℕ, String, Option, none, some, ◌≡◌, ◌≢◌, refl, ◌∙◌, ap, Option-cases, inl, inr}
use acme_api.Common.Dict.{
  insert-insert, lookup, insert, erase, lookup-insert_self, lookup-insert_ne,
}
use acme_api.Models.World.{ok}
use acme_api.Deployer.Disk.{
  move_found, move_entry, on_entry, Tree, Subdirectory, Folder, Entry, regular, FileData, files_of,
  call, in_generations, with_folder, in_folder, touched, Change, change, perform, open_file, write,
  chown, chmod, sync, replace_entry,
}
use acme_api.Deployer.Artifacts.{chown_if, write_fsync_chmod}
use acme_api.Deployer.Triples.{Triple, call_rule, bind_rule}

-- The target directory has the entries `e`, and the generation `c` is `g`.
pub record IsFramed (m : ℕ) (e : Folder) (c : String) (g : Option Subdirectory) (t : Tree)
    : Type 0 where
  pub fresh : t.fresh_mode ≡ m
  pub unlinked : t.entries ≡ e
  pub retained : lookup c t.generations ≡ g

module _ (m : ℕ) (e : Folder) (c : String) (g : Option Subdirectory) (staging id : String) where
  -- Also, the staging directory holds the files `f`, and there is no generation `id` yet.
  pub record IsStaged (f : Folder) (t : Tree) : Type 0 where
    pub framed : IsFramed m e c g t
    pub staged : files_of (lookup staging t.generations) ≡ some f
    pub unused : lookup id t.generations ≡ none

  module _ (other : staging ≢ c) (another : staging ≢ id) where
    with_folder-IsStaged :
        (f f' : Folder) (t : Tree)
        → IsStaged f t
        → IsStaged f' (with_folder (in_generations staging) f' t)
    with_folder-IsStaged f f' t p = elim (Option-cases (lookup staging t.generations)) [
      | inl q ↦
          let h : files_of (lookup staging t.generations) ≡ some f = p.staged in
          let k : files_of (lookup staging t.generations) ≡ none = ap files_of q in absurd (cc)
      | inr (s, q) ↦ rw q (record {
        framed = record {
          fresh = p.framed.fresh;
          unlinked = p.framed.unlinked;
          retained =
              lookup-insert_ne t.generations c staging (touched t f' s) other ∙ p.framed.retained;
        };
        staged = ap files_of (lookup-insert_self t.generations staging (touched t f' s));
        unused = lookup-insert_ne t.generations id staging (touched t f' s) another ∙ p.unused;
      })
    ]

    -- A call on the staging directory that turns the files `f` into `f'`.
    pub perform_rule :
        (x : Change) (f f' : Folder)
        → ((t : Tree) → t.fresh_mode ≡ m → change x t f ≡ ok f')
        → Triple
            (IsStaged f)
            (perform (in_generations staging) x)
            (λ _ t. IsStaged f' t)
            (IsFramed m e c g)
    unfolding perform
    perform_rule x f f' effect =
        call_rule (λ _ t. IsStaged f' t) (IsFramed m e c g)
          (in_folder (in_generations staging) (change x))
          (λ t p. rw (p.staged, effect t p.framed.fresh) (with_folder-IsStaged f f' t p))
          (λ t p. p.framed)

    -- A new file in the staging directory, with its content, permission bits and group.
    module _ (f : Folder) (name : String) (new : lookup name f ≡ none) where
      abbrev with_file : FileData → Folder
      with_file file = insert name (regular file) f

      abbrev opened : Folder
      opened = with_file (record { text = ""; mode = m; group = none })

      overwrite_file :
          (step : FileData → FileData) (file : FileData)
          → on_entry step name (lookup name (with_file file)) (with_file file)
            ≡ ok (with_file (step file))
      overwrite_file step file =
          rw (lookup-insert_self f name (regular file))
            (ap ok (insert-insert f name (regular (step file)) (regular file)))

      chown_rule :
          (text : String) (group : Option ℕ)
          → Triple
              (IsStaged (with_file (record { text = text; mode = m; group = none })))
              (chown_if (in_generations staging) name group)
              (λ _ t. IsStaged (with_file (record { text = text; mode = m; group = group })) t)
              (IsFramed m e c g)
      unfolding chown_if
      chown_rule text none = record { apply = λ d p. p }
      chown_rule text (some group) = perform_rule (chown name group) _ _ λ t h. overwrite_file _ _

      pub write_fsync_chmod_rule :
          (text : String) (mode : ℕ) (group : Option ℕ)
          → Triple
              (IsStaged f)
              (write_fsync_chmod (in_generations staging) name text mode group)
              (λ _ t. IsStaged (with_file (record { text = text; mode = mode; group = group })) t)
              (IsFramed m e c g)
      unfolding write_fsync_chmod change
      write_fsync_chmod_rule text mode group =
          bind_rule _ _ _ (perform_rule (open_file name) f opened λ t h. rw (new, h) refl) λ _.
            bind_rule _ _ _ (perform_rule (write name text) _ _ λ t h. overwrite_file _ _) λ _.
              bind_rule _ _ _ (chown_rule text group) λ _.
                bind_rule _ _ _ (perform_rule (chmod name mode) _ _ λ t h. overwrite_file _ _)
                  λ _. perform_rule sync _ _ λ t h. refl

    -- The renaming of a file within the staging directory.
    pub replace_rule :
        (f : Folder) (a b : String) (entry : Entry)
        → lookup a f ≡ some entry
        → Triple
            (IsStaged f)
            (replace_entry (in_generations staging) a (in_generations staging) b)
            (λ _ t. IsStaged (insert b entry (erase a f)) t)
            (IsFramed m e c g)
    unfolding replace_entry
    replace_rule f a b entry found =
        call_rule (λ _ t. IsStaged (insert b entry (erase a f)) t) (IsFramed m e c g)
          (move_entry (in_generations staging) a (in_generations staging) b)
          (λ t p.
            let p' = with_folder-IsStaged f (erase a f) t p in
            rw (p.staged, found, move_found, p.staged, p'.staged)
              (with_folder-IsStaged (erase a f) (insert b entry (erase a f)) _ p'))
          (λ t p. p.framed)

    -- A call that leaves everything as it is.
    pub idle_rule :
        {A : Type 0} (a : A) (f : Folder)
        → Triple (IsStaged f) (call (λ t. (ok a, t))) (λ _ t. IsStaged f t) (IsFramed m e c g)
    idle_rule a f =
        call_rule (λ _ t. IsStaged f t) (IsFramed m e c g) (λ t. (ok a, t)) (λ t p. p)
          (λ t p. p.framed)
