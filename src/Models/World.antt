-- ===== src/Models/World.antt =====
-- The state that the service's tasks share: the tables that acme_api/models declares, the clock,
-- and the calls made to the job scheduler. `Action` is a method that may raise: what was committed
-- before a raise stays committed, so the state comes back beside the error too.
use acme_api.Common.{ℕ, String, Option, List, ◌∷◌}
use acme_api.Models.Certificate.{Certificate}
use acme_api.Models.Audit.{Event, RenewalAttempt}
use acme_api.Models.Revocation.{Revocation}

-- The text "renew:<certificate>" or "renew-retry:<certificate>".
pub data JobId : Type 0 where
  renew renew_retry : ℕ → JobId

-- A call of the job scheduler: add or replace a job (when it runs, and the grace for a missed
-- run), or remove one.
pub data JobCall : Type 0 where
  add_job : JobId → ℕ → Option ℕ → JobCall
  remove_job : JobId → JobCall

-- The logs `events`, `attempts` and `job_calls` have their latest entry first.
pub record World : Type 0 where
  pub now : ℕ
  pub certificates : List Certificate
  pub events : List Event
  pub attempts : List RenewalAttempt
  pub revocations : List Revocation
  pub job_calls : List JobCall

-- What a method raises: the errors of acme_api/services/certificate_contracts.py, those of the
-- deployer, and the errors of Python that nothing on the way catches.
pub data Failure : Type 0 where
  lifecycle conflict unavailable not_found not_renewable : String → Failure
  deployment os_error value_error integrity : String → Failure
  overflow index_error : Failure

pub data Result (A : Type 0) : Type 0 where
  ok : A → Result A
  err : Failure → Result A

abbrev pub Action : Type 0 → Type 0
Action A = World → Result A × World

infixl 5 ◌>>=◌ ◌>>◌
abbrev pub ◌>>=◌ : {A B : Type 0} → Action A → (A → Action B) → Action B
◌>>=◌ m f w = let (r, w') = m w in elim r [ ok a ↦ f a w' | err e ↦ (err e, w') ]

abbrev pub ◌>>◌ : {A B : Type 0} → Action A → Action B → Action B
m >> k = m >>= λ _. k

abbrev pub pure : {A : Type 0} → A → Action A
pure a w = (ok a, w)

abbrev pub raise : {A : Type 0} → Failure → Action A
raise e w = (err e, w)

-- The method for its effect only.
abbrev pub forget : {A : Type 0} → Action A → Action (Unit {0})
forget m w = let (r, w') = m w in (elim r [ ok _ ↦ ok tt | err e ↦ err e ], w')

abbrev pub gets : {A : Type 0} → (World → A) → Action A
gets f w = (ok (f w), w)

abbrev pub modify : (World → World) → Action (Unit {0})
modify f w = (ok tt, f w)

abbrev pub add_event : Event → World → World
add_event e w = record w { events = e ∷ w.events }
