-- ===== src/Webhooks/Retrying.antt =====
-- The retry loop of a delivery (acme_api/webhooks.py).
use acme_api.Common.{
  ℕ, zero, suc, ◌+◌, ◌-◌, ◌*◌, ◌≤◌, String, List, [], ◌∷◌, ◌++◌, ◌≡◌, refl, ap, ◌∙◌, true, false,
  arith, ltb, Bool-cases, inl, inr, if◌then◌else◌,
}
use mathlib.Core.Path.{subst}
use acme_api.Webhooks.Target.{Resolver, safe, validate_webhook_url}
use acme_api.Webhooks.Delivery.{
  WebhookConfig, WebhookDeliverySettings, Client, deliver_to_config, Response, delivered,
  is_success, error_of, wait_after, prepend, deliver_loop,
}

-- The waits after the attempts from one number on, a number of them.
abbrev pub waits_from : ℕ → ℕ → ℕ → List ℕ
waits_from backoff n zero = []
waits_from backoff n (suc k) =
    if ltb 0 backoff then backoff * n ∷ waits_from backoff (suc n) k else []

module _ (backoff : ℕ) (post : ℕ → Response) where
  -- All of the attempts from one number on fail, a number of them.
  abbrev pub AllFail : ℕ → ℕ → Type 0
  AllFail n zero = Unit
  AllFail n (suc k) = (is_success (post n) ≡ false) × AllFail (suc n) k

  waits_from_none : (n k : ℕ) → ltb 0 backoff ≡ false → waits_from backoff n k ≡ []
  waits_from_none n zero g = refl
  waits_from_none n (suc k) g = rw g refl

  waits_from-suc :
      (n k more : ℕ)
      → wait_after backoff post (suc more) n ++ waits_from backoff (suc n) k
        ≡ waits_from backoff n (suc k)
  waits_from-suc n k more = elim (Bool-cases (ltb 0 backoff)) [
    | inl g ↦ rw g refl
    | inr g ↦ rw g (waits_from_none (suc n) k g)
  ]

  loop_succeeds :
      (k more n m : ℕ) (last : String)
      → n + k ≡ m
      → AllFail n k
      → is_success (post m) ≡ true
      → deliver_loop backoff post (suc (k + more)) n last
        ≡ delivered (suc k) (waits_from backoff n k)
  unfolding deliver_loop
  loop_succeeds zero more n m last e f g =
      let same : n ≡ m = omega (arith, e) in
      let here : is_success (post n) ≡ true = ap (λ i. is_success (post i)) same ∙ g in rw here refl
  loop_succeeds (suc k) more n m last e (h, f) g =
      let shift : suc k + more ≡ suc (k + more) = omega arith in
      rw
        (
          h,
          shift,
          loop_succeeds k more (suc n) m (error_of (post n)) (omega (arith, e)) f g,
          prepend,
        )
        (ap (λ ws. delivered (suc (suc k)) ws)
          (ap (λ i. wait_after backoff post i n ++ waits_from backoff (suc n) k) shift
            ∙ waits_from-suc n k (k + more)))

module _ (settings : WebhookDeliverySettings) (net : Resolver) (client : Client)
    (config : WebhookConfig) (event : String) where
  -- A delivery to a safe address whose first success comes after `k` failed attempts, no more than
  -- `max_retries`, succeeds with `k + 1` POSTs and `k` waits that grow by the backoff.
  pub delivery_succeeds :
      (k : ℕ)
      → validate_webhook_url net config.url ≡ safe
      → k ≤ settings.max_retries
      → AllFail settings.backoff (client config event) 1 k
      → is_success (client config event (suc k)) ≡ true
      → deliver_to_config settings net client config event
        ≡ delivered (suc k) (waits_from settings.backoff 1 k)
  unfolding deliver_to_config
  delivery_succeeds k checked le f g = rw checked (
      subst
        (λ n.
          deliver_loop settings.backoff (client config event) (suc n) 1 ""
          ≡ delivered (suc k) (waits_from settings.backoff 1 k))
        (omega (arith, le))
        (loop_succeeds settings.backoff (client config event) k (settings.max_retries - k) 1 (suc k)
          "" (omega arith) f g))
