-- ===== src/Schemas/Bodies.antt =====
-- The other checks of acme_api/schemas/certificate.py, and of the headers and queries that
-- acme_api/routers/certificates.py reads.
use acme_api.Common.{
  ℕ, String, Option, none, some, List, Bool, ◌&&◌, ◌||◌, ◌==◌, leb, ltb, str_eq, if◌then◌else◌,
}
use acme_api.Auth.Keys.{text_length}
use acme_api.Services.Requests.{CertificateCreate}
use acme_api.Schemas.Domains.{Validated, valid, invalid, validate_domains}

-- A text of a length between two bounds.
abbrev pub has_length : ℕ → ℕ → String → Bool
has_length low high s = leb low (text_length s) && leb (text_length s) high

abbrev pub is_key_algorithm : String → Bool
is_key_algorithm s = str_eq s "ecdsa" || str_eq s "rsa-2048" || str_eq s "rsa-4096"

abbrev pub with_domains : CertificateCreate → Validated (List String) → Validated CertificateCreate
with_domains p (invalid m) = invalid m
with_domains p (valid domains) = valid (record p { domains = domains })

-- `CertificateCreate`, from the fields as they come.
unfoldable pub validate_create : (String → String) → CertificateCreate → Validated CertificateCreate
unfolding validate_domains
validate_create repr p =
    if has_length 1 255 p.name && is_key_algorithm p.key_algorithm
    then with_domains p (validate_domains repr p.domains)
    else invalid "Input should be valid"

-- `CertificateRevocationCreate`: a reason code of RFC 5280 that is in use.
unfoldable pub validate_reason : Option ℕ → Validated (Option ℕ)
validate_reason none = valid none
validate_reason (some reason) =
    if ltb 10 reason
    then invalid "Input should be less than or equal to 10"
    else if reason == 7
    then invalid "Revocation reason code 7 is unused."
    else valid (some reason)

abbrev pub is_idempotency_key : String → Bool
is_idempotency_key key = has_length 1 255 key

abbrev pub is_revision : ℕ → Bool
is_revision revision = leb 1 revision

abbrev pub is_generation_id : String → Bool
is_generation_id id = has_length 1 64 id
