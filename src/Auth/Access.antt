-- ===== src/Auth/Access.antt =====
-- acme_api/auth/rbac.py: who a request comes from, and whether the role allows it.
use acme_api.Common.{
  ℕ, String, Option, none, some, List, Bool, false, ◌&&◌, ltb, holds_text, if◌then◌else◌,
}
use acme_api.Common.Table.{find_where}
use acme_api.Common.Text.{after_prefix}
use acme_api.Auth.Keys.{Role, admin, readonly, ApiKey, Digests, api_key_lookup_hash, verify_api_key}

pub record AuthenticatedUser : Type 0 where
  pub key_id : ℕ
  pub role : Role
  pub name : String
  pub expires_at : Option ℕ

-- An `HTTPException` of status 401 or 403.
pub data Access : Type 0 where
  granted : AuthenticatedUser → Access
  unauthorized forbidden : String → Access

-- The condition of the query.
abbrev pub is_candidate : String → ApiKey → Bool
is_candidate digest k = k.is_active && holds_text k.key_lookup_hash digest

abbrev pub expired : Option ℕ → ℕ → Bool
expired none now = false
expired (some at) now = ltb at now

abbrev pub user_of : ApiKey → AuthenticatedUser
user_of k = record { key_id = k.id; role = k.role; name = k.name; expires_at = k.expires_at }

abbrev pub admin_only : Access → Access
admin_only (granted u) = elim u.role [
  | admin ↦ granted u
  | _ ↦ forbidden "Admin privileges required."
]
admin_only a = a

abbrev pub operator_only : Access → Access
operator_only (granted u) = elim u.role [
  | readonly ↦ forbidden "Operator privileges required."
  | _ ↦ granted u
]
operator_only a = a

module _ (d : Digests) where
  abbrev pub with_candidate : String → ℕ → Option ApiKey → Access
  with_candidate token now none = unauthorized "Invalid API key."
  with_candidate token now (some k) =
      if verify_api_key d token k.hashed_key
      then (if expired k.expires_at now
          then forbidden "API key has expired."
          else granted (user_of k))
      else unauthorized "Invalid API key."

  -- The column `key_lookup_hash` is unique, so at most one row matches. There is no digest of the
  -- empty text.
  abbrev pub with_digest : List ApiKey → ℕ → String → Option String → Access
  with_digest keys now token none = unauthorized "Empty Bearer token."
  with_digest keys now token (some digest) =
      with_candidate token now (find_where (is_candidate digest) keys)

  abbrev pub with_token : List ApiKey → ℕ → Option String → Access
  with_token keys now none = unauthorized "Missing API key."
  with_token keys now (some token) = with_digest keys now token (api_key_lookup_hash d token)

  abbrev pub with_header : List ApiKey → ℕ → Option String → Access
  with_header keys now none = unauthorized "Missing API key."
  with_header keys now (some header) = with_token keys now (after_prefix "Bearer " header)

  -- `_authenticate`, from the header "authorization".
  unfoldable pub authenticate : List ApiKey → ℕ → Option String → Access
  unfolding api_key_lookup_hash verify_api_key
  authenticate keys now header = with_header keys now header

  unfoldable pub require_admin : List ApiKey → ℕ → Option String → Access
  unfolding authenticate
  require_admin keys now header = admin_only (authenticate keys now header)

  unfoldable pub require_operator : List ApiKey → ℕ → Option String → Access
  unfolding authenticate
  require_operator keys now header = operator_only (authenticate keys now header)

  unfoldable pub require_readonly : List ApiKey → ℕ → Option String → Access
  unfolding authenticate
  require_readonly keys now header = authenticate keys now header
