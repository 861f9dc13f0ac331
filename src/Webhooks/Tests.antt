-- ===== src/Webhooks/Tests.antt =====
-- The theorems about webhooks at concrete inputs.
use acme_api.Common.{none, some, [], ◌∷◌, ◌≡◌, refl, true, false, leb, if◌then◌else◌, arith}
use acme_api.Webhooks.Target.{Ip, Resolver, validate_webhook_url}
use acme_api.Webhooks.Delivery.{
  WebhookConfig, WebhookDeliverySettings, Client, status, http_error, delivered, deliver_to_config,
  dispatch,
}
use acme_api.Webhooks.Retrying.{delivery_succeeds}
use acme_api.Webhooks.Dispatching.{Tally, dispatch_accounts}

abbrev public_ip : Ip
public_ip = record {
  is_private = false;
  is_loopback = false;
  is_link_local = false;
  is_multicast = false;
  is_reserved = false;
  is_unspecified = false;
}

abbrev net : Resolver
net = record {
  urlsplit = λ u. record { scheme = "https"; hostname = some u };
  ip_address = λ h. none;
  resolve = λ h. some (public_ip ∷ []);
}

abbrev delivery_settings : WebhookDeliverySettings
delivery_settings = record { max_retries = 3; backoff = 1000 }

abbrev hook : WebhookConfig
hook = record {
  id = 1;
  url = "hooks.example.org";
  events = "*" ∷ [];
  secret = "secret";
  enabled = true;
}

-- The third attempt is answered.
abbrev client : Client
client config event n = if leb 3 n then status 204 else status 503

delivery_succeeds_example :
    deliver_to_config delivery_settings net client hook "certificate.issued"
    ≡ delivered 3 (1000 ∷ 2000 ∷ [])
unfolding validate_webhook_url
delivery_succeeds_example =
    delivery_succeeds delivery_settings net client hook "certificate.issued" 2 refl (omega arith)
      (refl, (refl, tt)) refl

-- Nobody answers.
abbrev silent : Client
silent config event n = http_error ""

dispatch_accounts_example :
    let (n, es) =
      dispatch delivery_settings net client (hook ∷ hook ∷ []) "certificate.issued" (some 2) in
    Tally
      (λ c. deliver_to_config delivery_settings net client c "certificate.issued")
      "certificate.issued"
      (some 2)
      (hook ∷ hook ∷ [])
      n
      es
dispatch_accounts_example =
    dispatch_accounts delivery_settings net client "certificate.issued" (some 2) (hook ∷ hook ∷ [])
