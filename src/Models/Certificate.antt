-- ===== src/Models/Certificate.antt =====
-- acme_api/models/certificate.py
use acme_api.Common.{
  ℕ, String, Option, none, some, List, Bool, true, false, ◌≡◌, refl, arith, str_eq, if◌then◌else◌,
}

pub data Status : Type 0 where
  pending pending_dns held authorization_ready released issuing : Status
  valid renewing failed cancelled revoked : Status

-- `a == b` on two states, by their places in the enumeration.
abbrev pub same_status : Status → Status → Bool
same_status pending pending = true
same_status pending_dns pending_dns = true
same_status held held = true
same_status authorization_ready authorization_ready = true
same_status released released = true
same_status issuing issuing = true
same_status valid valid = true
same_status renewing renewing = true
same_status failed failed = true
same_status cancelled cancelled = true
same_status revoked revoked = true
same_status _ _ = false

pub same_status-eq : (a b : Status) → same_status a b ≡ true → a ≡ b
same_status-eq pending b h = ground arith
same_status-eq _ b h = ground arith

pub same_status_refl : (a : Status) → same_status a a ≡ true
same_status_refl pending = refl
same_status_refl _ = refl

-- The values of the column `challenge_method` that the API writes.
pub data ChallengeMethod : Type 0 where
  dns_01 dns_persist : ChallengeMethod

abbrev pub same_method : ChallengeMethod → ChallengeMethod → Bool
same_method dns_01 dns_01 = true
same_method dns_persist dns_persist = true
same_method _ _ = false

pub same_method-eq : (a b : ChallengeMethod) → same_method a b ≡ true → a ≡ b
same_method-eq dns_01 b h = ground arith
same_method-eq _ b h = ground arith

-- The public description of a deployed generation, kept as JSON in the row.
pub record GenerationDetails : Type 0 where
  pub generation_id : String
  pub cert_path : String
  pub chain_path : String
  pub fullchain_path : String
  pub privkey_path : String
  pub fingerprint_sha256 : String
  pub serial : Option String
  pub subjects : List String
  pub not_after : ℕ

pub record Certificate : Type 0 where
  pub id : ℕ
  pub name : String
  pub domains : List String
  pub acme_account_ref : String
  pub dns_provider_ref : Option String
  pub challenge_method : ChallengeMethod
  pub dns_record_type : Option String
  pub dns_record_name : Option String
  pub dns_record_value : Option String
  pub key_algorithm : String
  pub expiry_date : Option ℕ
  pub status : Status
  pub revision : ℕ
  pub release_idempotency_key : Option String
  pub current_generation_id : Option String
  pub current_generation_details : Option GenerationDetails
  pub generation_selection_idempotency_key : Option String

-- The DNS Persist instruction that the API shows.
pub record Challenge : Type 0 where
  pub record_type : String
  pub record_name : String
  pub record_value : String

-- Python's `text or default`: an empty text counts as missing.
abbrev pub or_default : Option String → String → String
or_default none d = d
or_default (some s) d = if str_eq s "" then d else s

unfoldable pub challenge : Certificate → Option Challenge
challenge c = show_method c.challenge_method c.dns_record_value
  where
    show_method : ChallengeMethod → Option String → Option Challenge
    show_method dns_persist (some v) = some (record {
      record_type = or_default c.dns_record_type "TXT";
      record_name = or_default c.dns_record_name "";
      record_value = v;
    })
    show_method _ _ = none
