-- ===== src/Services/Requests.antt =====
-- `create_certificate` of acme_api/services/certificates.py.
use acme_api.Common.{
  ℕ, String, Option, none, some, List, [], ◌∷◌, Bool, not, ◌&&◌, ◌||◌, str_eq, texts_eq, is_none,
  if◌then◌else◌,
}
use acme_api.Common.Table.{find_where}
use acme_api.Models.Certificate.{
  Status, pending, held, cancelled, revoked, same_status, ChallengeMethod, dns_01, dns_persist,
  same_method, Certificate,
}
use acme_api.Models.Audit.{text, texts}
use acme_api.Models.World.{
  World, lifecycle, conflict, unavailable, os_error, value_error, Result, ok, err, Action,
}
use acme_api.Ports.Settings.{AppSettings, AcmeAccountConfig}
use acme_api.Ports.Backend.{Backend, Outcome}
use acme_api.Ports.Dispatcher.{Dispatcher, dispatch_webhook}
use acme_api.Services.Accounts.{acme_account, dns_persist_scope}
use acme_api.Services.Rows.{record_event}
use Prim.Native.String.{◌++◌}

-- The validated body of the request.
pub record CertificateCreate : Type 0 where
  pub name : String
  pub domains : List String
  pub acme_account_ref : String
  pub challenge_method : ChallengeMethod
  pub dns_provider_ref : Option String
  pub key_algorithm : String
  pub held : Bool

-- The unique constraint of the table, and the identity of a request.
abbrev pub same_request : CertificateCreate → Certificate → Bool
same_request p c =
    str_eq c.name p.name
    && str_eq c.acme_account_ref p.acme_account_ref
    && same_method c.challenge_method p.challenge_method

unfoldable pub find_request : CertificateCreate → World → Option Certificate
find_request p w = find_where (same_request p) w.certificates

unfoldable pub resume_or_reject : Certificate → CertificateCreate → Result Certificate
resume_or_reject existing p =
    if same_method existing.challenge_method dns_persist
      && not (same_status existing.status revoked || same_status existing.status cancelled)
      && texts_eq existing.domains p.domains
    then ok existing
    else err (
        conflict
          "Certificate name, ACME account, and challenge method already identify another request.")

-- The row of a new request, with the column defaults.
abbrev pub new_row : ℕ → CertificateCreate → Certificate
new_row id p = record {
  id = id;
  name = p.name;
  domains = p.domains;
  acme_account_ref = p.acme_account_ref;
  dns_provider_ref = p.dns_provider_ref;
  challenge_method = dns_01;
  dns_record_type = none;
  dns_record_name = none;
  dns_record_value = none;
  key_algorithm = p.key_algorithm;
  expiry_date = none;
  status = pending;
  revision = 1;
  release_idempotency_key = none;
  current_generation_id = none;
  current_generation_details = none;
  generation_selection_idempotency_key = none;
}

abbrev pub persist_row : ℕ → CertificateCreate → String → String → Certificate
persist_row id p domain dns_value = record (new_row id p) {
  dns_provider_ref = none;
  challenge_method = dns_persist;
  dns_record_name = some ("_validation-persist." ++ domain);
  dns_record_value = some dns_value;
  status = if p.held then held else Status.pending_dns;
}

-- The DNS Persist instruction from the backend, or the error that the service raises for it.
abbrev persist_value : Outcome String → Result String
persist_value (Outcome.ok v) = ok v
persist_value (Outcome.transient m) =
    err (unavailable ("Unable to generate DNS Persist instructions: " ++ m))
persist_value (Outcome.terminal m) =
    err (lifecycle ("Unable to generate DNS Persist instructions: " ++ m))
persist_value (Outcome.os_error m) = err (os_error m)
persist_value (Outcome.value_error m) = err (value_error m)

-- The checks before the database is read.
unfoldable pub check_payload : CertificateCreate → Result (Unit {0})
check_payload p =
    if same_method p.challenge_method dns_01 && is_none p.dns_provider_ref
    then err (lifecycle "dns_provider_ref is required for dns-01 certificates.")
    else if p.held && not (same_method p.challenge_method dns_persist)
    then err (lifecycle "Only DNS Persist requests can be held.")
    else ok tt

with_value : ℕ → CertificateCreate → String → Result String → Result Certificate
with_value id p domain (ok v) = ok (persist_row id p domain v)
with_value id p domain (err e) = err e

module _ (backend : Backend) where
  with_scope :
      ℕ → AcmeAccountConfig → CertificateCreate → Result (String × Bool) → Result Certificate
  unfolding with_value
  with_scope id account p (err e) = err e
  with_scope id account p (ok (domain, wildcard)) = with_value id p domain (
      persist_value (
        backend.make_dns_persist_value domain wildcard account.account_key_path account.server_url))

  by_method : ℕ → AcmeAccountConfig → CertificateCreate → ChallengeMethod → Result Certificate
  unfolding with_scope dns_persist_scope
  by_method id account p dns_persist = with_scope id account p (dns_persist_scope p.domains)
  by_method id account p dns_01 = ok (new_row id p)

  -- The row of a new request, with the instruction that the backend computes for DNS Persist.
  unfoldable pub build_row : ℕ → AcmeAccountConfig → CertificateCreate → Result Certificate
  unfolding by_method
  build_row id account p = by_method id account p p.challenge_method

-- After the unique constraint refused the row: the request is looked up afresh.
abbrev pub recover : CertificateCreate → Option Certificate → Result Certificate
recover p (some existing) = resume_or_reject existing p
recover p none = err (conflict "Certificate request already exists.")

module _ (hooks : Option Dispatcher) where
  -- `flush`, which the unique constraint may refuse, then the event, the commit and the webhook.
  unfoldable pub insert_row : CertificateCreate → Certificate → Action Certificate
  insert_row p row w = elim (find_request p w) [
    | some existing ↦ (recover p (some existing), w)
    | none ↦ (
      ok row,
      dispatch_webhook hooks "certificate.created" row (
          record_event row.id "certificate.created"
            (("name", text row.name) ∷ ("domains", texts row.domains) ∷ [])
            (record w { certificates = row ∷ w.certificates })),
    )
  ]

module _ (backend : Backend) (hooks : Option Dispatcher) where
  -- What follows the first look-up, whose answer may be stale.
  unfoldable pub create_from :
      Option Certificate → ℕ → AcmeAccountConfig → CertificateCreate → Action Certificate
  unfolding build_row insert_row resume_or_reject
  create_from (some existing) id account p w = (resume_or_reject existing p, w)
  create_from none id account p w = elim (build_row backend id account p) [
    | ok row ↦ insert_row hooks p row w
    | err e ↦ (err e, w)
  ]

module _ (settings : AppSettings) (backend : Backend) (hooks : Option Dispatcher) where
  -- `id` is the UUID that a new row gets.
  unfoldable pub create_certificate : ℕ → CertificateCreate → Action Certificate
  unfolding create_from acme_account check_payload find_request
  create_certificate id p w = elim (acme_account settings p.acme_account_ref) [
    | err e ↦ (err e, w)
    | ok account ↦ elim (check_payload p) [
      | err e ↦ (err e, w)
      | ok _ ↦ create_from backend hooks (find_request p w) id account p w
    ]
  ]
