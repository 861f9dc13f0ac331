-- ===== src/Models/Revocation.antt =====
-- acme_api/models/certificate_revocation.py
use acme_api.Common.{ℕ, String, Option}

pub data RevocationStatus : Type 0 where
  pending succeeded failed : RevocationStatus

pub record Revocation : Type 0 where
  pub id : ℕ
  pub certificate_id : ℕ
  pub domain : String
  pub reason : Option ℕ
  pub idempotency_key : String
  pub actor : Option String
  pub status : RevocationStatus
  pub error_category : Option String
  pub error_details : Option String
  pub attempt_started_at : Option ℕ
  pub completed_at : Option ℕ
