-- ===== src/Samples.antt =====
-- Concrete data for the examples of the other modules: no code of the repository.
use acme_api.Common.{
  ℕ, String, none, some, List, [], ◌∷◌, Bool, true, false, ◌==◌, if◌then◌else◌, ◌≡◌, ◌≢◌, refl, sym,
  ap, ==_refl, ==-eq, Bool-cases, inl, inr,
}
use acme_api.Models.Certificate.{
  Certificate, Status, held, pending, valid, ChallengeMethod, dns_01, dns_persist,
}
use acme_api.Models.World
use acme_api.Models.World.{World, JobId, renew, renew_retry, JobCall, add_job, remove_job}
use acme_api.Ports.Settings.{AppSettings, AcmeAccountConfig, RenewalConfig}
use acme_api.Ports.Backend.{Backend, Outcome, IssuanceResult}
use acme_api.Ports.Deployer.{Metadata, Deployer, DeploymentPaths, deployed}
use acme_api.Ports.Jobs.{JobStore}

-- A renewal window of thirty days and three attempts.
abbrev pub renewal_config : RenewalConfig
renewal_config = record { enabled = true; window_days = 30; max_retries = 3 }

abbrev pub account : AcmeAccountConfig
account = record {
  name = "main";
  server_url = "https://acme.example/directory";
  account_key_path = some "/keys/main.key";
}

abbrev pub settings : AppSettings
settings = record {
  deployment = record {
    directory = "/certificates";
    permissions_cert = 420;
    permissions_key = 384;
    artifact_group_id = none;
    generation_aware = true;
    generation_retention_count = some 3;
    generation_retention_days = none;
  };
  home_dir = "/acme";
  database = record { url = "sqlite+aiosqlite:///./data/acme.db"; pool_size = 5 };
  is_acmesh = true;
  dns_providers =
      record { name = "dns"; provider_name = "dns_cf"; env_vars_file_path = "/dns.env" } ∷ [];
  acme_accounts = account ∷ [];
}

abbrev pub base_row : ℕ → ChallengeMethod → Status → Certificate
base_row id method status = record {
  id = id;
  name = if id == 3 then "shop" else "site";
  domains = "example.org" ∷ [];
  acme_account_ref = "main";
  dns_provider_ref = some "dns";
  challenge_method = method;
  dns_record_type = none;
  dns_record_name = some "_validation-persist.example.org";
  dns_record_value = some "value";
  key_algorithm = "ecdsa";
  expiry_date = some 63900000000;
  status = status;
  revision = 1;
  release_idempotency_key = none;
  current_generation_id = none;
  current_generation_details = none;
  generation_selection_idempotency_key = none;
}

abbrev pub held_row : Certificate
held_row = base_row 1 dns_persist held

abbrev pub valid_row : Certificate
valid_row = base_row 2 dns_01 valid

abbrev pub pending_row : Certificate
pending_row = base_row 3 dns_01 pending

abbrev pub world : World
world = record {
  now = 63800000000;
  certificates = held_row ∷ valid_row ∷ pending_row ∷ [];
  events = [];
  attempts = [];
  revocations = [];
  job_calls = [];
}

abbrev pub issuance : IssuanceResult
issuance = record {
  account_key_path = "/keys/main.key";
  cert = record {
    cert_path = "/acme/cert.pem";
    privkey_path = "/acme/key.pem";
    chain_path = "/acme/chain.pem";
    fullchain_path = "/acme/fullchain.pem";
    expires_at = 63910000000;
  };
  domains = "example.org" ∷ [];
}

-- A backend whose every call ends in the same way.
abbrev pub backend_with : {A : Type 0} → Outcome A → Outcome IssuanceResult → Backend
backend_with o r = record {
  make_dns_persist_value = λ d wild k u. Outcome.ok "value";
  issue_certificate = λ q. r;
  renew_certificate = λ ds force. r;
  revoke_certificate = λ q. erase o;
}
  where
    erase : {A : Type 0} → Outcome A → Outcome (Unit {0})
    erase (Outcome.ok _) = Outcome.ok tt
    erase (Outcome.transient m) = Outcome.transient m
    erase (Outcome.terminal m) = Outcome.terminal m
    erase (Outcome.os_error m) = Outcome.os_error m
    erase (Outcome.value_error m) = Outcome.value_error m

abbrev pub working_backend : Backend
working_backend = backend_with (Outcome.ok tt) (Outcome.ok issuance)

abbrev pub broken_backend : String → Backend
broken_backend m = backend_with {A = Unit {0}} (Outcome.transient m) (Outcome.transient m)

abbrev pub missing_backend : Backend
missing_backend =
    backend_with {A = Unit {0}} (Outcome.os_error "no acme.sh") (Outcome.os_error "no acme.sh")

abbrev pub paths : String → DeploymentPaths
paths generation = record {
  directory = "/certificates/example.org";
  cert_path = "/certificates/example.org/cert.pem";
  chain_path = "/certificates/example.org/chain.pem";
  fullchain_path = "/certificates/example.org/fullchain.pem";
  privkey_path = "/certificates/example.org/privkey.pem";
  metadata_path = "/certificates/example.org/metadata.json";
  generation_id = some generation;
}

abbrev metadata : Metadata
metadata = record {
  fingerprint_sha256 = some "fingerprint";
  serial = some "01";
  subjects = none;
  domains = some ("example.org" ∷ []);
  expires_at = 63910000000;
}

abbrev pub deployer : Deployer
deployer = record {
  deploy_issuance_result = λ result root options. deployed (paths "g2");
  select_generation = λ root name generation. deployed (paths generation);
  read_metadata = λ path. World.ok metadata;
  sha256_of_file = λ path. World.ok "digest";
}

-- Whether the latest call about a job added it.
abbrev same_job : JobId → JobId → Bool
same_job (renew a) (renew b) = a == b
same_job (renew_retry a) (renew_retry b) = a == b
same_job _ _ = false

abbrev latest_added : List JobCall → JobId → Bool
latest_added [] k = false
latest_added (add_job j at grace ∷ calls) k = if same_job j k then true else latest_added calls k
latest_added (remove_job j ∷ calls) k = if same_job j k then false else latest_added calls k

pub same_job_refl : (j : JobId) → same_job j j ≡ true
same_job_refl (renew a) = ==_refl a
same_job_refl (renew_retry a) = ==_refl a

pub same_job_ne : (j k : JobId) → k ≢ j → same_job j k ≡ false
same_job_ne (renew a) (renew b) ne = elim (Bool-cases (a == b)) [
  | inl g ↦ let e : b ≡ a = sym (==-eq a b g) in absurd (ne (ap renew e))
  | inr g ↦ g
]
same_job_ne (renew a) (renew_retry b) ne = refl
same_job_ne (renew_retry a) (renew b) ne = refl
same_job_ne (renew_retry a) (renew_retry b) ne = elim (Bool-cases (a == b)) [
  | inl g ↦ let e : b ≡ a = sym (==-eq a b g) in absurd (ne (ap renew_retry e))
  | inr g ↦ g
]

abbrev pub job_store : JobStore
job_store = record {
  has_job = latest_added;
  has-add = λ k at grace calls. rw (same_job_refl k) refl;
  has-add_ne = λ j k at grace calls ne. rw (same_job_ne k j ne) refl;
  has-remove = λ k calls. rw (same_job_refl k) refl;
  has-remove_ne = λ j k calls ne. rw (same_job_ne k j ne) refl;
}
