-- ===== src/Auth/Clients.antt =====
-- acme_api/admin_clients.py: creating, rotating and revoking the clients of the API.
use acme_api.Common.{
  ℕ, String, Option, none, some, List, [], ◌∷◌, Bool, true, false, not, ◌&&◌, ◌||◌, ◌==◌, ltb, leb,
  not_empty, str_eq, any, holds_text, if◌then◌else◌,
}
use acme_api.Common.Table.{find}
use acme_api.Models.Audit.{Event, text}
use acme_api.Auth.Keys.{
  Role, admin, operator, readonly, ApiKey, Digests, ClientStore, text_length, api_key_lookup_hash,
  hash_api_key,
}
use Prim.Native.Char.{Char, code}

abbrev is_line_end : ℕ → Bool
is_line_end n = n == 10 || n == 13

abbrev strip_end : Char → String → String
strip_end c rest = if is_line_end (code c) && str_eq rest "" then "" else String.◌∷◌ c rest

-- `raw_key.rstrip("\r\n")`
abbrev pub rstrip : String → String
rstrip String.[] = ""
rstrip (String.◌∷◌ c cs) = strip_end c (rstrip cs)

-- `isspace` and `isprintable` on an ASCII character.
abbrev is_space : ℕ → Bool
is_space n = n == 32 || (leb 9 n && leb n 13) || (leb 28 n && leb n 31)

abbrev is_printable : ℕ → Bool
is_printable n = leb 32 n && leb n 126

abbrev pub visible : String → Bool
visible String.[] = true
visible (String.◌∷◌ c cs) =
    (ltb (code c) 128 && not (is_space (code c)) && is_printable (code c)) && visible cs

abbrev pub max_key_length : ℕ
max_key_length = 4096

abbrev pub min_key_length : ℕ
min_key_length = 16

pub data ClientError : Type 0 where
  value_error : String → ClientError
  already_initialized name_taken not_found : ClientError

pub data Provisioned (A : Type 0) : Type 0 where
  done : A → Provisioned A
  failed : ClientError → Provisioned A

unfoldable pub validate_raw_key : String → Provisioned String
validate_raw_key raw =
    let key = rstrip raw in
    if not (leb min_key_length (text_length key) && leb (text_length key) max_key_length)
    then failed (value_error "Credential must be between 16 and 4096 characters.")
    else if not (visible key)
    then failed
        (value_error "Credential must contain only visible ASCII characters without whitespace.")
    else done key

abbrev pub role_value : Role → String
role_value admin = "admin"
role_value operator = "operator"
role_value readonly = "readonly"

abbrev client_event : String → String → Role → Event
client_event type name role = record {
  event_type = type;
  certificate_id = none;
  details = ("name", text name) ∷ ("role", text (role_value role)) ∷ [];
}

abbrev pub client_id : ApiKey → ℕ
client_id k = k.id

-- The unique columns of the table.
abbrev pub collides : ApiKey → ApiKey → Bool
collides new k =
    str_eq k.name new.name
    || elim new.key_lookup_hash [ none ↦ false | some digest ↦ holds_text k.key_lookup_hash digest ]

-- `UPDATE api_keys ... WHERE id = ...`
abbrev pub update_client : ℕ → (ApiKey → ApiKey) → List ApiKey → List ApiKey
update_client id f [] = []
update_client id f (k ∷ ks) = (if k.id == id then f k else k) ∷ update_client id f ks

abbrev pub save : Event → List ApiKey → ClientStore → ClientStore
save e ks s = record { clients = ks; events = e ∷ s.events }

abbrev pub new_client : ℕ → String → String → String → Role → ApiKey
new_client id name hashed digest role = record {
  id = id;
  name = name;
  hashed_key = hashed;
  key_lookup_hash = some digest;
  role = role;
  is_active = true;
  expires_at = none;
}

abbrev pub insert_initial :
    ℕ → Provisioned (String × String) → ClientStore → Provisioned ApiKey × ClientStore
insert_initial id (failed e) s = (failed e, s)
insert_initial id (done (hashed, digest)) s =
    let client = new_client id "initial-admin" hashed digest admin in
    (
      done client,
      save (client_event "api_client.initialized" "initial-admin" admin) (client ∷ s.clients) s,
    )

abbrev pub insert_client :
    ℕ
    → String
    → Role
    → Provisioned (String × String)
    → ClientStore
    → Provisioned ApiKey × ClientStore
insert_client id name role (failed e) s = (failed e, s)
insert_client id name role (done (hashed, digest)) s =
    let client = new_client id name hashed digest role in
    if any (collides client) s.clients
    then (failed name_taken, s)
    else (done client, save (client_event "api_client.created" name role) (client ∷ s.clients) s)

abbrev pub rotated : String → String → ApiKey → ApiKey
rotated hashed digest k = record k { hashed_key = hashed; key_lookup_hash = some digest }

-- Another row already has the digest.
abbrev pub digest_taken : ℕ → String → ApiKey → Bool
digest_taken id digest k = not (k.id == id) && holds_text k.key_lookup_hash digest

abbrev pub rotate_with :
    ApiKey → Provisioned (String × String) → ClientStore → Provisioned ApiKey × ClientStore
rotate_with k (failed e) s = (failed e, s)
rotate_with k (done (hashed, digest)) s =
    if any (digest_taken k.id digest) s.clients then (failed name_taken, s) else (
      done (rotated hashed digest k),
      save (client_event "api_client.rotated" k.name k.role)
          (update_client k.id (rotated hashed digest) s.clients) s,
    )

-- The two hashes of a credential, or the error of the first that raises.
abbrev pub both_hashes : Option String → Option String → Provisioned (String × String)
both_hashes none _ = failed (value_error "API key must be at least 8 characters long.")
both_hashes (some hashed) none = failed (value_error "API key must not be empty.")
both_hashes (some hashed) (some digest) = done (hashed, digest)

module _ (d : Digests) where
  abbrev pub hashes : ℕ → String → Provisioned (String × String)
  hashes salt raw = both_hashes (hash_api_key d salt raw) (api_key_lookup_hash d raw)

  abbrev pub initialize_with :
      ℕ → ℕ → Provisioned String → ClientStore → Provisioned ApiKey × ClientStore
  initialize_with id salt (failed e) s = (failed e, s)
  initialize_with id salt (done credential) s =
      if not_empty s.clients
      then (failed already_initialized, s)
      else insert_initial id (hashes salt credential) s

  -- `id` and `salt` are drawn at random.
  unfoldable pub initialize_admin : ℕ → ℕ → String → ClientStore → Provisioned ApiKey × ClientStore
  unfolding validate_raw_key api_key_lookup_hash hash_api_key
  initialize_admin id salt raw s = initialize_with id salt (validate_raw_key raw) s

  -- `create_client`; `raw` is what `secrets.token_urlsafe` draws, and is returned to the caller.
  unfoldable pub create_client :
      ℕ → ℕ → String → String → Role → ClientStore → Provisioned ApiKey × ClientStore
  unfolding api_key_lookup_hash hash_api_key
  create_client id salt raw name role s = insert_client id name role (hashes salt raw) s

  -- `rotate_client` on the row that its id finds.
  unfoldable pub rotate_client : ℕ → ℕ → String → ClientStore → Provisioned ApiKey × ClientStore
  unfolding api_key_lookup_hash hash_api_key
  rotate_client id salt raw s = elim (find client_id id s.clients) [
    | none ↦ (failed not_found, s)
    | some k ↦ rotate_with k (hashes salt raw) s
  ]

abbrev pub deactivated : ApiKey → ApiKey
deactivated k = record k { is_active = false }

-- `revoke_client` on the row that its id finds.
unfoldable pub revoke_client : ℕ → ClientStore → Provisioned ApiKey × ClientStore
revoke_client id s = elim (find client_id id s.clients) [
  | none ↦ (failed not_found, s)
  | some k ↦ (
    done (deactivated k),
    save (client_event "api_client.revoked" k.name k.role)
        (update_client k.id deactivated s.clients) s,
  )
]
