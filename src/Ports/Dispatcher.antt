-- ===== src/Ports/Dispatcher.antt =====
-- The webhook dispatcher as the service and the scheduler see it. What is delivered depends on the
-- network; the service relies on its adding events and leaving everything else alone.
use acme_api.Common.{String, Option, none, some, ◌≡◌, refl, List, [], ◌++◌}
use acme_api.Models.Certificate.{Certificate}
use acme_api.Models.Audit.{Event}
use acme_api.Models.World.{World}

pub record Dispatcher : Type 0 where
  pub dispatch : String → Certificate → World → World
  pub new_events : String → Certificate → World → List Event
  pub adds_events :
      (t : String) (c : Certificate) (w : World)
      → (dispatch t c w).events ≡ new_events t c w ++ w.events
  pub keeps_now : (t : String) (c : Certificate) (w : World) → (dispatch t c w).now ≡ w.now
  pub keeps_certificates :
      (t : String) (c : Certificate) (w : World) → (dispatch t c w).certificates ≡ w.certificates
  pub keeps_attempts :
      (t : String) (c : Certificate) (w : World) → (dispatch t c w).attempts ≡ w.attempts
  pub keeps_revocations :
      (t : String) (c : Certificate) (w : World) → (dispatch t c w).revocations ≡ w.revocations
  pub keeps_job_calls :
      (t : String) (c : Certificate) (w : World) → (dispatch t c w).job_calls ≡ w.job_calls

-- `_dispatch_webhook`: nothing is sent where no factory is configured.
abbrev pub dispatch_webhook : Option Dispatcher → String → Certificate → World → World
dispatch_webhook none t c w = w
dispatch_webhook (some d) t c w = d.dispatch t c w

module _ (o : Option Dispatcher) (t : String) (c : Certificate) (w : World) where
  pub now-dispatch : (dispatch_webhook o t c w).now ≡ w.now
  now-dispatch = by_case o
    where
      by_case : (o : Option Dispatcher) → (dispatch_webhook o t c w).now ≡ w.now
      by_case none = refl
      by_case (some d) = d.keeps_now t c w

  pub events-dispatch : (new : List Event) × ((dispatch_webhook o t c w).events ≡ new ++ w.events)
  events-dispatch = by_case o
    where
      by_case :
          (o : Option Dispatcher)
          → (new : List Event) × ((dispatch_webhook o t c w).events ≡ new ++ w.events)
      by_case none = ([], refl)
      by_case (some d) = (d.new_events t c w, d.adds_events t c w)

  pub certificates-dispatch : (dispatch_webhook o t c w).certificates ≡ w.certificates
  certificates-dispatch = by_case o
    where
      by_case : (o : Option Dispatcher) → (dispatch_webhook o t c w).certificates ≡ w.certificates
      by_case none = refl
      by_case (some d) = d.keeps_certificates t c w

  pub attempts-dispatch : (dispatch_webhook o t c w).attempts ≡ w.attempts
  attempts-dispatch = by_case o
    where
      by_case : (o : Option Dispatcher) → (dispatch_webhook o t c w).attempts ≡ w.attempts
      by_case none = refl
      by_case (some d) = d.keeps_attempts t c w

  pub revocations-dispatch : (dispatch_webhook o t c w).revocations ≡ w.revocations
  revocations-dispatch = by_case o
    where
      by_case : (o : Option Dispatcher) → (dispatch_webhook o t c w).revocations ≡ w.revocations
      by_case none = refl
      by_case (some d) = d.keeps_revocations t c w

  pub job_calls-dispatch : (dispatch_webhook o t c w).job_calls ≡ w.job_calls
  job_calls-dispatch = by_case o
    where
      by_case : (o : Option Dispatcher) → (dispatch_webhook o t c w).job_calls ≡ w.job_calls
      by_case none = refl
      by_case (some d) = d.keeps_job_calls t c w
