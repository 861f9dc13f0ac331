-- ===== src/Webhooks/Delivery.antt =====
-- The class `WebhookDispatcher` of acme_api/webhooks.py. The answers of a subscriber and the text
-- of a payload are arguments.
use acme_api.Common.Numerals.{decimal}
use acme_api.Common.{
  ℕ, zero, suc, ◌*◌, String, Option, List, [], ◌∷◌, ◌++◌, Bool, false, ◌&&◌, ◌||◌, leb, ltb, str_eq,
  contains, if◌then◌else◌,
}
use acme_api.Models.Audit.{Event, text, number}
use acme_api.Webhooks.Target.{Resolver, Checked, safe, unsafe, validate_webhook_url}
use Prim.Native.String.{◌++◌ as text_append}

pub record WebhookConfig : Type 0 where
  pub id : ℕ
  pub url : String
  pub events : List String
  pub secret : String
  pub enabled : Bool

-- `backoff` is `backoff_seconds` in milliseconds.
pub record WebhookDeliverySettings : Type 0 where
  pub max_retries : ℕ
  pub backoff : ℕ

-- What one POST gives: a status code, or an `HTTPError`.
pub data Response : Type 0 where
  status : ℕ → Response
  http_error : String → Response

-- The answers of the subscribers, for each subscription, event and attempt.
abbrev pub Client : Type 0
Client = WebhookConfig → String → ℕ → Response

-- How a delivery ends, after a number of POSTs and the waits between them.
pub data Delivery : Type 0 where
  delivered : (posts : ℕ) → (waits : List ℕ) → Delivery
  undelivered : (error : String) → (posts : ℕ) → (waits : List ℕ) → Delivery

abbrev pub is_success : Response → Bool
is_success (status code) = leb 200 code && ltb code 300
is_success (http_error m) = false

abbrev pub error_of : Response → String
error_of (status code) = text_append "HTTP " (decimal code)
error_of (http_error m) = m

-- `last_error or "delivery failed"`
abbrev pub final_error : String → String
final_error m = if str_eq m "" then "delivery failed" else m

module _ (backoff : ℕ) (post : ℕ → Response) where
  -- The wait after a failed attempt, if another follows.
  abbrev pub wait_after : ℕ → ℕ → List ℕ
  wait_after zero n = []
  wait_after (suc more) n = if ltb 0 backoff then backoff * n ∷ [] else []

  abbrev pub prepend : List ℕ → Delivery → Delivery
  prepend ws (delivered posts waits) = delivered (suc posts) (ws ++ waits)
  prepend ws (undelivered e posts waits) = undelivered e (suc posts) (ws ++ waits)

  -- The loop, with the attempts that remain, the number of the next one, and the last error.
  unfoldable pub deliver_loop : ℕ → ℕ → String → Delivery
  deliver_loop zero n last_error = undelivered (final_error last_error) 0 []
  deliver_loop (suc more) n last_error =
      let rest = deliver_loop more (suc n) (error_of (post n)) in
      if is_success (post n) then delivered 1 [] else prepend (wait_after more n) rest

module _ (settings : WebhookDeliverySettings) (net : Resolver) (client : Client) where
  abbrev deliver_checked : WebhookConfig → String → Checked → Delivery
  deliver_checked config event (unsafe m) = undelivered m 0 []
  deliver_checked config event safe =
      deliver_loop settings.backoff (client config event) (suc settings.max_retries) 1 ""

  -- `_deliver_to_config`
  unfoldable pub deliver_to_config : WebhookConfig → String → Delivery
  unfolding deliver_loop validate_webhook_url
  deliver_to_config config event =
      deliver_checked config event (validate_webhook_url net config.url)

-- The condition of `_matching_configs`.
abbrev pub subscribed : String → WebhookConfig → Bool
subscribed event c = c.enabled && (contains "*" c.events || contains event c.events)

abbrev pub matching_configs : String → List WebhookConfig → List WebhookConfig
matching_configs event [] = []
matching_configs event (c ∷ cs) =
    if subscribed event c then c ∷ matching_configs event cs else matching_configs event cs

abbrev pub failure_event : String → Option ℕ → WebhookConfig → String → Event
failure_event event certificate_id config error = record {
  event_type = "webhook.delivery_failed";
  certificate_id = certificate_id;
  details =
      ("webhook_id", number config.id)
      ∷ ("url", text config.url)
      ∷ ("event", text event)
      ∷ ("error", text error)
      ∷ [];
}

-- The number delivered and the events of one delivery before the others.
abbrev pub add_delivery :
    String → Option ℕ → WebhookConfig → Delivery → ℕ × List Event → ℕ × List Event
add_delivery event id c (delivered posts waits) (n, es) = (suc n, es)
add_delivery event id c (undelivered m posts waits) (n, es) =
    (n, es ++ (failure_event event id c m ∷ []))

module _ (settings : WebhookDeliverySettings) (net : Resolver) (client : Client) where
  unfoldable pub deliver_each : String → Option ℕ → List WebhookConfig → ℕ × List Event
  unfolding deliver_to_config
  deliver_each event id [] = (0, [])
  deliver_each event id (c ∷ cs) =
      add_delivery event id c (deliver_to_config settings net client c event)
        (deliver_each event id cs)

  -- `dispatch`: the number delivered, and the new events, the latest first.
  unfoldable pub dispatch : List WebhookConfig → String → Option ℕ → ℕ × List Event
  unfolding deliver_each
  dispatch configs event id = deliver_each event id (matching_configs event configs)
