-- ===== src/Scheduler/Expiring.antt =====
-- The expiry event of acme_api/scheduler.py.
use acme_api.Common.{
  ℕ, Option, none, some, [], ◌∷◌, ◌≡◌, refl, ◌∙◌, ap, true, false, arith, ltb, any-append_right,
  Bool-cases, inl, inr,
}
use acme_api.Models.Certificate.{Certificate}
use acme_api.Models.Audit.{Event, texts, number}
use acme_api.Models.World.{World, Result, ok, err, add_event}
use acme_api.Ports.Settings.{RenewalConfig}
use acme_api.Ports.Dispatcher.{Dispatcher, events-dispatch, now-dispatch}
use acme_api.Scheduler.Startup.{
  is_expiring_event, expiring_event_exists, emit_if_missing, emit_in_window, emit_for,
  emit_expiring_if_due,
}

module _ (config : RenewalConfig) (hooks : Option Dispatcher) (c : Certificate) where
  emitted :
      (expiry : ℕ) (w : World)
      → expiring_event_exists c.id (emit_if_missing config hooks c expiry w) ≡ true
  unfolding expiring_event_exists emit_if_missing
  emitted expiry w = elim (Bool-cases (expiring_event_exists c.id w)) [
    | inl g ↦ rw g g
    | inr g ↦
        let event : Event = record {
          event_type = "certificate.expiring";
          certificate_id = some c.id;
          details = ("domains", texts c.domains) ∷ ("expires_at", number expiry) ∷ [];
        } in
        let (new, e) = events-dispatch hooks "certificate.expiring" c (add_event event w) in
        rw (g, e) (any-append_right (is_expiring_event c.id) new (event ∷ w.events) (ground arith))
  ]

  now-emit : (expiry : ℕ) (w : World) → (emit_if_missing config hooks c expiry w).now ≡ w.now
  unfolding emit_if_missing
  now-emit expiry w = elim (Bool-cases (expiring_event_exists c.id w)) [
    | inl g ↦ rw g
    | inr g ↦ rw g (now-dispatch hooks "certificate.expiring" c _)
  ]

  emit_present :
      (expiry : ℕ) (w : World)
      → expiring_event_exists c.id w ≡ true
      → emit_if_missing config hooks c expiry w ≡ w
  unfolding emit_if_missing
  emit_present expiry w g = rw g

  emit_in_window_twice :
      (expiry : ℕ) (opens : Result ℕ) (w : World)
      → let w' = (emit_in_window config hooks c expiry opens w).1 in
        (emit_in_window config hooks c expiry opens w').1 ≡ w'
  unfolding emit_in_window
  emit_in_window_twice expiry (err e) w = refl
  emit_in_window_twice expiry (ok opens) w = elim (Bool-cases (ltb w.now opens)) [
    | inl g ↦ rw (g, g)
    | inr g ↦
        let w' = emit_if_missing config hooks c expiry w in
        let g' : ltb w'.now opens ≡ false = ap (λ n. ltb n opens) (now-emit expiry w) ∙ g in
        rw (g, g') (emit_present expiry w' (emitted expiry w))
  ]

  emit_for_twice :
      (expiry : Option ℕ) (w : World)
      → let w' = (emit_for config hooks c expiry w).1 in (emit_for config hooks c expiry w').1 ≡ w'
  unfolding emit_for
  emit_for_twice none w = refl
  emit_for_twice (some expiry) w = emit_in_window_twice expiry _ w

  -- Checking a certificate for expiry twice in a row has the effect of checking it once: no second
  -- event and no second webhook, whatever events the webhook dispatcher adds in between.
  pub emit_expiring_once :
      (w : World)
      → let w' = (emit_expiring_if_due config hooks c w).1 in
        (emit_expiring_if_due config hooks c w').1 ≡ w'
  unfolding emit_expiring_if_due
  emit_expiring_once w = emit_for_twice c.expiry_date w
