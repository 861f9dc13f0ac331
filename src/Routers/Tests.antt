-- ===== src/Routers/Tests.antt =====
-- Requests to the routers at concrete data.
use acme_api.Common.{none, some, [], ◌∷◌, ◌≡◌, refl, Bool, true, false}
use acme_api.Models.Certificate.{dns_01}
use acme_api.Models.World.{World}
use acme_api.Auth.Keys.{operator, readonly, ApiKey, Digests}
use acme_api.Auth.Access.{AuthenticatedUser, user_of}
use acme_api.Auth.Clients.{new_client}
use acme_api.Samples.{settings, world, working_backend, deployer, renewal_config, job_store}
use acme_api.Services.Requests.{CertificateCreate}
use acme_api.Routers.Replies.{refused}
use acme_api.Routers.Certificates.{App, release_held, delete, perform, handle}
use acme_api.Routers.Unchanged.{refused_unchanged}
use Prim.Native.String.{◌++◌}
use acme_api.Common.{str_eq}

abbrev digests : Digests
digests = record {
  lookup_digest = λ s. "d" ++ s;
  salted_hash = λ salt s. "h" ++ s;
  verify = λ c stored. some (str_eq stored ("h" ++ c));
}

abbrev app_with : Bool → App
app_with has_scheduler = record {
  has_service = true;
  has_scheduler = has_scheduler;
  settings = settings;
  backend = working_backend;
  deployer = deployer;
  hooks = none;
  scheduler = some renewal_config;
  jobs = some job_store;
  renewal_deployment = none;
  digests = digests;
  repr = λ s. s;
}

abbrev app : App
app = app_with true

abbrev operator_key : ApiKey
operator_key = new_client 1 "ops" "hsecret-secret-00" "dsecret-secret-00" operator

abbrev reader_key : ApiKey
reader_key = new_client 2 "ci" "hsecret-secret-01" "dsecret-secret-01" readonly

abbrev actor : AuthenticatedUser
actor = user_of operator_key

abbrev request_body : CertificateCreate
request_body = record {
  name = "new";
  domains = "New.Example.org" ∷ [];
  acme_account_ref = "main";
  challenge_method = dns_01;
  dns_provider_ref = some "dns";
  key_algorithm = "ecdsa";
  held = false;
}

abbrev validated : CertificateCreate
validated = record request_body { domains = "new.example.org" ∷ [] }

reader_refused :
    handle app (operator_key ∷ reader_key ∷ []) (some "Bearer secret-secret-01") (delete 2) world
    ≡ (refused 403 "Operator privileges required.", world)
unfolding handle
reader_refused = refl

unknown_certificate :
    perform app actor (release_held 9 1 "key") world ≡ (refused 404 "Certificate not found.", world)
unfolding perform
unknown_certificate = refl

refused_unchanged_example : ◌≡◌ {A = World} world world
refused_unchanged_example =
    refused_unchanged 404 "Certificate not found." world world app actor refl
      (release_held 9 1 "key") unknown_certificate
