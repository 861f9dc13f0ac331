-- ===== src/Auth/Keys.antt =====
-- acme_api/models/api_key.py and acme_api/auth/hash.py. PBKDF2 itself is hashlib's and passlib's,
-- so the digests are an argument.
use acme_api.Common.{
  ℕ, suc, String, Option, none, some, List, Bool, false, ◌||◌, ltb, str_eq, if◌then◌else◌,
}
use acme_api.Models.Audit.{Event}

pub data Role : Type 0 where
  admin operator readonly : Role

pub record ApiKey : Type 0 where
  pub id : ℕ
  pub name : String
  pub hashed_key : String
  pub key_lookup_hash : Option String
  pub role : Role
  pub is_active : Bool
  pub expires_at : Option ℕ

-- `pbkdf2_hmac` with the salt and rounds of the look-up; `pbkdf2_sha512` of passlib, whose salt is
-- drawn anew for each hash, and whose verification raises on a malformed hash.
pub record Digests : Type 0 where
  pub lookup_digest : String → String
  pub salted_hash : ℕ → String → String
  pub verify : String → String → Option Bool

-- The table of clients and the events about them, the latest first.
pub record ClientStore : Type 0 where
  pub clients : List ApiKey
  pub events : List Event

-- `len(s)`
abbrev pub text_length : String → ℕ
text_length String.[] = 0
text_length (String.◌∷◌ c cs) = suc (text_length cs)

module _ (d : Digests) where
  -- `none` is a `ValueError`.
  unfoldable pub api_key_lookup_hash : String → Option String
  api_key_lookup_hash raw = if str_eq raw "" then none else some (d.lookup_digest raw)

  unfoldable pub hash_api_key : ℕ → String → Option String
  hash_api_key salt raw =
      if str_eq raw "" || ltb (text_length raw) 8 then none else some (d.salted_hash salt raw)

  abbrev true_if_some : Option Bool → Bool
  true_if_some none = false
  true_if_some (some b) = b

  unfoldable pub verify_api_key : String → String → Bool
  verify_api_key candidate stored =
      if str_eq candidate "" || str_eq stored ""
      then false
      else true_if_some (d.verify candidate stored)
