-- ===== src/Ports/Backend.antt =====
-- acme_api/backend/protocol.py and acme_api/backend/dataclasses.py: the ACME backend as the
-- service sees it. Its answers come from the acme.sh process and a certificate authority, so they
-- are an argument: a record of functions from the call's arguments.
use acme_api.Common.{ℕ, String, Option, List, Bool}

-- A result, an `AcmeShError` of one of the two classes, an `OSError` (the binary cannot run), or a
-- `ValueError` (the file of credentials cannot be parsed).
pub data Outcome (A : Type 0) : Type 0 where
  ok : A → Outcome A
  transient terminal os_error value_error : String → Outcome A

pub record CertExpiry : Type 0 where
  pub cert_path : String
  pub privkey_path : String
  pub chain_path : String
  pub fullchain_path : String
  pub expires_at : ℕ

pub record IssuanceResult : Type 0 where
  pub account_key_path : String
  pub cert : CertExpiry
  pub domains : List String

-- The challenge parameters of an issuance: the dict of `_issue_and_deploy`.
pub data ChallengeParams : Type 0 where
  dns_01_params : (provider : String) → (env_vars_file : String) → ChallengeParams
  dns_persist_params : ChallengeParams

pub record IssueRequest : Type 0 where
  pub domains : List String
  pub key_algorithm : String
  pub challenge : ChallengeParams
  pub account_key_path : Option String
  pub server_url : String

pub record RevokeRequest : Type 0 where
  pub domain : String
  pub reason : Option ℕ
  pub key_algorithm : String
  pub account_key_path : Option String
  pub server_url : String

pub record Backend : Type 0 where
  pub make_dns_persist_value : String → Bool → Option String → String → Outcome String
  pub issue_certificate : IssueRequest → Outcome IssuanceResult
  pub renew_certificate : List String → Bool → Outcome IssuanceResult
  pub revoke_certificate : RevokeRequest → Outcome (Unit {0})
