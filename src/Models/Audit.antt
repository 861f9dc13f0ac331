-- ===== src/Models/Audit.antt =====
-- acme_api/models/event.py and acme_api/models/renewal_attempt.py: the rows that only accumulate.
use acme_api.Common.{ℕ, String, Option, List}

-- The values that the code puts into the JSON column `details`.
pub data Value : Type 0 where
  text : String → Value
  texts : List String → Value
  number : ℕ → Value
  null : Value

pub record Event : Type 0 where
  pub event_type : String
  pub certificate_id : Option ℕ
  pub details : List (String × Value)

pub data AttemptStatus : Type 0 where
  success failed : AttemptStatus

pub record RenewalAttempt : Type 0 where
  pub certificate_id : ℕ
  pub status : AttemptStatus
  pub error_category : Option String
  pub error_details : Option String
  pub next_retry_at : Option ℕ
