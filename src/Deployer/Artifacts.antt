-- ===== src/Deployer/Artifacts.antt =====
-- The artifacts that acme_api/deployer.py writes: their names, where they come from, the metadata,
-- and the staging of all of them in a directory.
use acme_api.Common.{ℕ, String, Option, none, some, List, [], ◌∷◌, Bool, if◌then◌else◌, str_eq}
use acme_api.Common.Dict.{Dict}
use acme_api.Models.World.{Result, ok, err, deployment}
use acme_api.Ports.Backend.{CertExpiry}
use acme_api.Ports.Deployer.{DeploymentPaths}
use acme_api.Deployer.Disk.{
  Io, ◌>>=◌, ◌>>◌, pure, call, Place, perform, open_file, write, chown, chmod, sync, replace_entry,
}
use Prim.Native.String.{◌++◌}

abbrev pub cert_file_name : String
cert_file_name = "cert.pem"

abbrev pub chain_file_name : String
chain_file_name = "chain.pem"

abbrev pub fullchain_file_name : String
fullchain_file_name = "fullchain.pem"

abbrev pub privkey_file_name : String
privkey_file_name = "privkey.pem"

abbrev pub metadata_file_name : String
metadata_file_name = "metadata.json"

abbrev pub artifact_names : List String
artifact_names =
    cert_file_name ∷ chain_file_name ∷ fullchain_file_name ∷ privkey_file_name ∷ metadata_file_name
    ∷ []

pub record DeploymentMetadata : Type 0 where
  pub primary_domain : String
  pub domains : List String
  pub expires_at : ℕ
  pub issuer : Option String
  pub source_cert_path : Option String
  pub source_chain_path : Option String
  pub source_fullchain_path : Option String

-- The dictionary that becomes the text of metadata.json.
pub record Payload : Type 0 where
  pub metadata : DeploymentMetadata
  pub fingerprint_sha256 : String
  pub subjects : List String

-- What is known of a source file, by its path: `resolved` is `path.resolve()`, `text` its content.
pub record SourceFile : Type 0 where
  pub is_file : Bool
  pub is_symlink : Bool
  pub is_regular : Bool
  pub resolved : String
  pub text : String

-- The file system outside the directory of the certificate, with hashlib and json.
pub record Outside : Type 0 where
  pub source : String → SourceFile
  pub resolve : String → String
  pub sha256 : String → String
  pub to_json : Payload → String
  pub repr : String → String

abbrev pub source_paths : CertExpiry → Dict String
source_paths cert =
    (cert_file_name, cert.cert_path)
    ∷ (chain_file_name, cert.chain_path)
    ∷ (fullchain_file_name, cert.fullchain_path)
    ∷ (privkey_file_name, cert.privkey_path)
    ∷ []

-- `_deployment_paths`
abbrev pub deployment_paths : String → Option String → DeploymentPaths
deployment_paths directory generation_id = record {
  directory = directory;
  cert_path = directory ++ "/" ++ cert_file_name;
  chain_path = directory ++ "/" ++ chain_file_name;
  fullchain_path = directory ++ "/" ++ fullchain_file_name;
  privkey_path = directory ++ "/" ++ privkey_file_name;
  metadata_path = directory ++ "/" ++ metadata_file_name;
  generation_id = generation_id;
}

abbrev pub primary_domain : List String → Result String
primary_domain [] = err (deployment "at least one domain is required for deployment")
primary_domain (domain ∷ rest) = ok domain

-- `_metadata_for_cert`
abbrev pub metadata_for_cert : CertExpiry → List String → String → DeploymentMetadata
metadata_for_cert cert domains primary = record {
  primary_domain = primary;
  domains = domains;
  expires_at = cert.expires_at;
  issuer = none;
  source_cert_path = some cert.cert_path;
  source_chain_path = some cert.chain_path;
  source_fullchain_path = some cert.fullchain_path;
}

-- Permission bits of certificates and of the key, and the group of both.
pub record Permissions : Type 0 where
  pub cert : ℕ
  pub key : ℕ
  pub group : Option ℕ

unfoldable pub chown_if : Place → String → Option ℕ → Io (Unit {0})
unfolding perform
chown_if p name none = pure tt
chown_if p name (some group) = perform p (chown name group)

unfoldable pub write_fsync_chmod : Place → String → String → ℕ → Option ℕ → Io (Unit {0})
unfolding chown_if perform
write_fsync_chmod p name text mode group = do
  perform p (open_file name)
  perform p (write name text)
  chown_if p name group
  perform p (chmod name mode)
  perform p sync

abbrev pub temporary_name : String → String
temporary_name name = name ++ ".tmp"

abbrev pub mode_of : Permissions → String → ℕ
mode_of permissions name =
    if str_eq name privkey_file_name then permissions.key else permissions.cert

module _ (out : Outside) where
  abbrev pub text_of : String → String
  text_of path = (out.source path).text

  unfoldable pub read_source : String → Io String
  unfolding call
  read_source path = call (λ t. (ok (text_of path), t))

  -- `_copy_fsync_chmod`
  unfoldable pub copy_fsync_chmod : Place → String → String → ℕ → Option ℕ → Io (Unit {0})
  unfolding read_source write_fsync_chmod
  copy_fsync_chmod p path name mode group = do
    text ← read_source path
    write_fsync_chmod p name text mode group

  unfoldable pub copy_all : Place → Permissions → Dict String → Io (Unit {0})
  unfolding copy_fsync_chmod
  copy_all p permissions [] = pure tt
  copy_all p permissions ((name, path) ∷ rest) = do
    copy_fsync_chmod p path (temporary_name name) (mode_of permissions name) permissions.group
    copy_all p permissions rest

  abbrev pub payload : DeploymentMetadata → String → Payload
  payload metadata cert_text = record {
    metadata = metadata;
    fingerprint_sha256 = out.sha256 cert_text;
    subjects = metadata.domains;
  }

  -- `_write_temp_artifacts`
  unfoldable pub write_temp_artifacts :
      Place → CertExpiry → DeploymentMetadata → Permissions → Io (Unit {0})
  unfolding copy_all read_source write_fsync_chmod
  write_temp_artifacts p cert metadata permissions = do
    copy_all p permissions (source_paths cert)
    cert_text ← read_source cert.cert_path
    write_fsync_chmod p (temporary_name metadata_file_name)
        (out.to_json (payload metadata cert_text)) permissions.cert permissions.group

unfoldable pub replace_each : Place → Place → List String → Io (Unit {0})
unfolding replace_entry
replace_each p q [] = pure tt
replace_each p q (name ∷ names) = do
  replace_entry p (temporary_name name) q name
  replace_each p q names

-- `_replace_artifacts`
unfoldable pub replace_artifacts : Place → Place → Io (Unit {0})
unfolding replace_each
replace_artifacts p q = replace_each p q artifact_names
