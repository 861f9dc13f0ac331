-- ===== src/Deployer/Written.antt =====
-- The files of a generation that acme_api/deployer.py has written, named and renamed.
use acme_api.Common.{ℕ, String, Option, none, some, List, [], ◌∷◌, ◌≡◌, ◌≢◌, refl, ap, ◌∙◌, sym}
use acme_api.Common.Dict.{
  Dict, lookup, insert, erase, lookup-insert_self, lookup-insert_ne, lookup-erase_ne,
}
use acme_api.Ports.Backend.{CertExpiry}
use acme_api.Deployer.Disk.{
  replace_entry, Tree, Subdirectory, Folder, Entry, regular, files_of, in_generations,
}
use acme_api.Deployer.Directories.{move_directory, replace_directory, moved, fsync_directory}
use acme_api.Deployer.Artifacts.{
  mode_of, source_paths, cert_file_name, chain_file_name, fullchain_file_name, privkey_file_name,
  metadata_file_name, DeploymentMetadata, Outside, Permissions, payload, text_of, copy_fsync_chmod,
  copy_all, read_source, write_fsync_chmod, write_temp_artifacts, replace_each, replace_artifacts,
  temporary_name,
}
use acme_api.Deployer.Migration.{Draws}
use acme_api.Deployer.Publication.{stage_generation}
use acme_api.Deployer.Staging.{IsFramed, IsStaged, write_fsync_chmod_rule, replace_rule, idle_rule}
use acme_api.Deployer.Triples.{PostTree, Triple, call_rule, bind_rule, read_rule}

-- The directory after each entry has lost the suffix of its name.
abbrev renamed : Folder → Folder → Folder
renamed f [] = f
renamed f ((name, entry) ∷ rest) = renamed (insert name entry (erase (temporary_name name) f)) rest

abbrev AreWritten : Folder → Folder → Type 0
AreWritten f [] = Unit
AreWritten f ((name, entry) ∷ rest) =
    (lookup (temporary_name name) f ≡ some entry)
    × AreWritten (insert name entry (erase (temporary_name name) f)) rest

abbrev names_of : Folder → List String
names_of [] = []
names_of ((name, _) ∷ rest) = name ∷ names_of rest

module _ (out : Outside) (cert : CertExpiry) (metadata : DeploymentMetadata)
    (permissions : Permissions) where
  abbrev artifact : String → ℕ → Entry
  artifact text mode = regular (record { text = text; mode = mode; group = permissions.group })

  abbrev metadata_text : String
  metadata_text = out.to_json (payload out metadata (text_of out cert.cert_path))

  -- The files of a complete generation: the key alone has the permissions of keys.
  abbrev pub complete_generation : Folder
  complete_generation =
      (cert_file_name, artifact (text_of out cert.cert_path) permissions.cert)
      ∷ (chain_file_name, artifact (text_of out cert.chain_path) permissions.cert)
      ∷ (fullchain_file_name, artifact (text_of out cert.fullchain_path) permissions.cert)
      ∷ (privkey_file_name, artifact (text_of out cert.privkey_path) permissions.key)
      ∷ (metadata_file_name, artifact metadata_text permissions.cert)
      ∷ []

  abbrev written : Folder
  written =
      ("cert.pem.tmp", artifact (text_of out cert.cert_path) permissions.cert)
      ∷ ("chain.pem.tmp", artifact (text_of out cert.chain_path) permissions.cert)
      ∷ ("fullchain.pem.tmp", artifact (text_of out cert.fullchain_path) permissions.cert)
      ∷ ("privkey.pem.tmp", artifact (text_of out cert.privkey_path) permissions.key)
      ∷ ("metadata.json.tmp", artifact metadata_text permissions.cert)
      ∷ []

  abbrev copy_of : String → String → Entry
  copy_of name path = artifact (text_of out path) (mode_of permissions name)

  -- The staging directory after copies of sources, each under a name that was new.
  abbrev copied : Folder → Dict String → Folder
  copied f [] = f
  copied f ((name, path) ∷ rest) = copied (insert (temporary_name name) (copy_of name path) f) rest

  abbrev AreNew : Folder → Dict String → Type 0
  AreNew f [] = Unit
  AreNew f ((name, path) ∷ rest) =
      (lookup (temporary_name name) f ≡ none)
      × AreNew (insert (temporary_name name) (copy_of name path) f) rest

  module _ (m : ℕ) (e : Folder) (c : String) (g : Option Subdirectory) (staging id : String)
      (other : staging ≢ c) (another : staging ≢ id) where
    abbrev At : Folder → Tree → Type 0
    At f t = IsStaged m e c g staging id f t

    copy_rule :
        (f : Folder) (name path : String) (mode : ℕ)
        → lookup name f ≡ none
        → Triple
            (At f)
            (copy_fsync_chmod out (in_generations staging) path name mode permissions.group)
            (λ _ t. At (insert name (artifact (text_of out path) mode) f) t)
            (IsFramed m e c g)
    unfolding copy_fsync_chmod read_source
    copy_rule f name path mode new =
        read_rule (text_of out path)
          (λ text. write_fsync_chmod (in_generations staging) name text mode permissions.group)
          (λ t p. p.framed)
          (write_fsync_chmod_rule m e c g staging id other another f name new (text_of out path)
            mode permissions.group)

    copy_all_rule :
        (f : Folder) (sources : Dict String)
        → AreNew f sources
        → Triple
            (At f)
            (copy_all out (in_generations staging) permissions sources)
            (λ _ t. At (copied f sources) t)
            (IsFramed m e c g)
    unfolding copy_all
    copy_all_rule f [] h = record { apply = λ d p. p }
    copy_all_rule f ((name, path) ∷ rest) (new, more) =
        bind_rule (λ _ t. At (insert (temporary_name name) (copy_of name path) f) t) _ _
          (copy_rule f (temporary_name name) path (mode_of permissions name) new)
          λ _. copy_all_rule (insert (temporary_name name) (copy_of name path) f) rest more

    write_temp_artifacts_rule :
        Triple
          (At [])
          (write_temp_artifacts out (in_generations staging) cert metadata permissions)
          (λ _ t. At written t)
          (IsFramed m e c g)
    unfolding write_temp_artifacts read_source
    write_temp_artifacts_rule =
        bind_rule (λ _ t. At (copied [] (source_paths cert)) t) _ _
          (copy_all_rule [] (source_paths cert) (refl, (refl, (refl, (refl, tt)))))
          λ _.
            read_rule (text_of out cert.cert_path)
              (λ text.
                write_fsync_chmod (in_generations staging) (temporary_name metadata_file_name)
                  (out.to_json (payload out metadata text)) permissions.cert permissions.group)
              (λ t p. p.framed)
              (write_fsync_chmod_rule m e c g staging id other another
                (copied [] (source_paths cert)) (temporary_name metadata_file_name) refl
                metadata_text permissions.cert permissions.group)

    rename_rule :
        (f : Folder) (name : String) (entry : Entry)
        → lookup (temporary_name name) f ≡ some entry
        → Triple
            (At f)
            (replace_entry
              (in_generations staging)
              (temporary_name name)
              (in_generations staging)
              name)
            (λ _ t. At (insert name entry (erase (temporary_name name) f)) t)
            (IsFramed m e c g)
    rename_rule f name entry found =
        replace_rule m e c g staging id other another f (temporary_name name) name entry found

    replace_each_rule :
        (f : Folder) (entries : Folder)
        → AreWritten f entries
        → Triple
            (At f)
            (replace_each (in_generations staging) (in_generations staging) (names_of entries))
            (λ _ t. At (renamed f entries) t)
            (IsFramed m e c g)
    unfolding replace_each
    replace_each_rule f [] h = record { apply = λ d p. p }
    replace_each_rule f ((name, entry) ∷ rest) (found, more) =
        bind_rule (λ _ t. At (insert name entry (erase (temporary_name name) f)) t) _ _
          (rename_rule f name entry found)
          λ _. replace_each_rule (insert name entry (erase (temporary_name name) f)) rest more

    replace_artifacts_rule :
        Triple
          (At written)
          (replace_artifacts (in_generations staging) (in_generations staging))
          (λ _ t. At complete_generation t)
          (IsFramed m e c g)
    unfolding replace_artifacts
    replace_artifacts_rule =
        replace_each_rule written complete_generation (refl, (refl, (refl, (refl, (refl, tt)))))

    -- The new generation is in place, and all else is as before.
    pub record IsPlaced (t : Tree) : Type 0 where
      pub framed : IsFramed m e c g t
      pub placed : files_of (lookup id t.generations) ≡ some complete_generation

    moved-IsPlaced :
        (t : Tree) (o : Option Subdirectory)
        → id ≢ c
        → lookup staging t.generations ≡ o
        → At complete_generation t
        → PostTree (λ _ t. IsPlaced t) (IsFramed m e c g) (moved staging id t o none)
    moved-IsPlaced t none ne q p = p.framed
    moved-IsPlaced t (some s) ne q p = record {
      framed = record {
        fresh = p.framed.fresh;
        unlinked = p.framed.unlinked;
        retained =
            lookup-insert_ne (erase staging t.generations) c id s ne
            ∙ lookup-erase_ne t.generations c staging other
            ∙ p.framed.retained;
      };
      placed =
          ap files_of (lookup-insert_self (erase staging t.generations) id s)
          ∙ sym (ap files_of q)
          ∙ p.staged;
    }

    pub stage_generation_rule :
        (draws : Draws) (count days : Option ℕ)
        → draws.staging ≡ staging
        → draws.generation_id ≡ id
        → id ≢ c
        → Triple
            (At [])
            (stage_generation out draws cert metadata permissions count days)
            (λ _ t. IsPlaced t)
            (IsFramed m e c g)
    unfolding stage_generation fsync_directory replace_directory
    stage_generation_rule draws count days es ei ne =
        rw (es, ei)
          (bind_rule _ _ _ write_temp_artifacts_rule λ _.
            bind_rule _ _ _ replace_artifacts_rule λ _.
              bind_rule (λ _ t. At complete_generation t) _ _
                (idle_rule m e c g staging id other another tt complete_generation)
                λ _.
                  bind_rule (λ _ t. IsPlaced t) _ _
                    (call_rule (λ _ t. IsPlaced t) (IsFramed m e c g) (move_directory staging id)
                      (λ t p.
                        rw (p.unused) (moved-IsPlaced t (lookup staging t.generations) ne refl p))
                      (λ t p. p.framed))
                    λ _.
                      call_rule (λ _ t. IsPlaced t) (IsFramed m e c g) _ (λ t p. p)
                        (λ t p. p.framed))
