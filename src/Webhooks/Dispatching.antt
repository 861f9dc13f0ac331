-- ===== src/Webhooks/Dispatching.antt =====
-- One dispatch to all subscribers (acme_api/webhooks.py), and the dispatcher that the certificate
-- service and the scheduler are given.
use acme_api.Common.{
  ℕ, suc, String, Option, some, List, [], ◌∷◌, ◌++◌, ◌≡◌, refl, true, false, ◌&&◌, ◌||◌, contains,
  Bool-cases, inl, inr,
}
use acme_api.Models.Audit.{Event, text, number}
use acme_api.Models.World.{World}
use acme_api.Ports.Dispatcher.{Dispatcher}
use acme_api.Webhooks.Target.{Resolver}
use acme_api.Webhooks.Delivery.{
  WebhookConfig, WebhookDeliverySettings, Client, Delivery, delivered, undelivered, subscribed,
  add_delivery, deliver_to_config, deliver_each, dispatch,
}

-- What a dispatch of an event to a list of subscriptions has to give, one by one: the number of
-- deliveries and the new events, the latest first.
pub data Tally (deliver : WebhookConfig → Delivery) (event : String) (id : Option ℕ)
    : List WebhookConfig → ℕ → List Event → Type 0 where
  nobody : Tally deliver event id [] 0 []
  skipped :
      (c : WebhookConfig) (cs : List WebhookConfig) (n : ℕ) (es : List Event)
      → (c.enabled && (contains "*" c.events || contains event c.events)) ≡ false
      → Tally deliver event id cs n es
      → Tally deliver event id (c ∷ cs) n es
  counted :
      (c : WebhookConfig) (cs : List WebhookConfig) (posts n : ℕ) (waits : List ℕ) (es : List Event)
      → (c.enabled && (contains "*" c.events || contains event c.events)) ≡ true
      → deliver c ≡ delivered posts waits
      → Tally deliver event id cs n es
      → Tally deliver event id (c ∷ cs) (suc n) es
  reported :
      (c : WebhookConfig) (cs : List WebhookConfig) (error : String) (posts n : ℕ) (waits : List ℕ)
      (es : List Event)
      → (c.enabled && (contains "*" c.events || contains event c.events)) ≡ true
      → deliver c ≡ undelivered error posts waits
      → Tally deliver event id cs n es
      → Tally deliver event id (c ∷ cs) n (
          es
          ++ (record {
            event_type = "webhook.delivery_failed";
            certificate_id = id;
            details =
                ("webhook_id", number c.id)
                ∷ ("url", text c.url)
                ∷ ("event", text event)
                ∷ ("error", text error)
                ∷ [];
          }
              ∷ []))

module _ (settings : WebhookDeliverySettings) (net : Resolver) (client : Client) (event : String)
    (id : Option ℕ) where
  add_one :
      (c : WebhookConfig) (cs : List WebhookConfig) (n : ℕ) (es : List Event) (o : Delivery)
      → subscribed event c ≡ true
      → deliver_to_config settings net client c event ≡ o
      → Tally (λ k. deliver_to_config settings net client k event) event id cs n es
      → let r = add_delivery event id c o (n, es) in
        Tally (λ k. deliver_to_config settings net client k event) event id (c ∷ cs) r.0 r.1
  add_one c cs n es (delivered posts waits) g e a = counted c cs posts n waits es g e a
  add_one c cs n es (undelivered m posts waits) g e a = reported c cs m posts n waits es g e a

  -- Of the subscriptions, those that are enabled and name the event or "*" are delivered to, and no
  -- others. Each delivery that succeeds is counted, and each that fails gives one event
  -- webhook.delivery_failed about the certificate with the subscription, its address, the event and
  -- the error; nothing else is counted or recorded.
  pub dispatch_accounts :
      (configs : List WebhookConfig)
      → let (n, es) = dispatch settings net client configs event id in
        Tally (λ c. deliver_to_config settings net client c event) event id configs n es
  unfolding dispatch deliver_each
  dispatch_accounts [] = nobody
  dispatch_accounts (c ∷ cs) = elim (Bool-cases (subscribed event c)) [
    | inl g ↦ rw g (
        add_one c cs _ _ (deliver_to_config settings net client c event) g refl
          (dispatch_accounts cs))
    | inr g ↦ rw g (skipped c cs _ _ g (dispatch_accounts cs))
  ]

-- `dispatch_certificate_event` fills the interface that the service and the scheduler use. The
-- answers of the subscribers may differ from one call to the next.
webhook_dispatcher :
    WebhookDeliverySettings
    → Resolver
    → (World → Client)
    → (World → List WebhookConfig)
    → Dispatcher
unfolding dispatch
webhook_dispatcher settings net client configs = record {
  dispatch = λ t c w. record w {
    events = (dispatch settings net (client w) (configs w) t (some c.id)).1 ++ w.events;
  };
  new_events = λ t c w. (dispatch settings net (client w) (configs w) t (some c.id)).1;
  adds_events = λ t c w. refl;
  keeps_now = λ t c w. refl;
  keeps_certificates = λ t c w. refl;
  keeps_attempts = λ t c w. refl;
  keeps_revocations = λ t c w. refl;
  keeps_job_calls = λ t c w. refl;
}
