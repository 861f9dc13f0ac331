-- ===== src/Routers/Refusals.antt =====
-- What a refused request to acme_api/routers/certificates.py leaves behind.
use acme_api.Common.{
  ℕ, String, Option, none, some, ◌≡◌, ◌⊎◌, inl, inr, arith, Bool-cases, holds_text,
}
use acme_api.Models.Certificate.{GenerationDetails, Certificate}
use acme_api.Models.World.{World, Failure, overflow, Result, ok, err, Action}
use acme_api.Ports.Settings.{AcmeAccountConfig, AppSettings, RenewalConfig}
use acme_api.Ports.Backend.{Backend}
use acme_api.Ports.Deployer.{Deployer, DeploymentPaths}
use acme_api.Ports.Dispatcher.{Dispatcher}
use acme_api.Ports.Jobs.{JobStore}
use acme_api.Scheduler.Schedule.{schedule_certificate, next_renewal_run_time, minus_days}
use acme_api.Services.Rows.{get}
use acme_api.Services.Requests.{
  CertificateCreate, create_certificate, create_from, insert_row, find_request,
}
use acme_api.Services.Holds.{
  authorize, authorize_from, mark_ready, request_issuance, release, release_from, release_current,
}
use acme_api.Services.Retirement.{revoke_certificate, revoke_from, request_manual_renewal}
use acme_api.Services.Issuance.{schedule}
use acme_api.Services.Generations.{generation_details, generation_expiry}
use acme_api.Services.Selection.{
  select_described, select_deployment_generation, select_from, select_retained, returning, retained,
}

-- A method that raises has changed nothing.
abbrev pub RaisesClean : {A : Type 0} → Action A → World → Type 0
RaisesClean m w = (e : Failure) (w' : World) → m w ≡ (err e, w') → w' ≡ w

mark_ready_clean : (seen : Certificate) (id : ℕ) (w : World) → RaisesClean (mark_ready seen id) w
unfolding mark_ready
mark_ready_clean seen id w e w' h = ground arith

request_issuance_clean : (id : ℕ) (w : World) → RaisesClean (request_issuance id) w
unfolding request_issuance
request_issuance_clean id w e w' h = ground arith

pub authorize_clean : (id : ℕ) (w : World) → RaisesClean (authorize id) w
unfolding authorize authorize_from
authorize_clean id w e w' h = ground (
  arith,
  request_issuance_clean id w e w',
  λ (seen : Certificate). mark_ready_clean seen id w e w',
)

release_current_clean :
    (id revision : ℕ) (key : String) (w : World) → RaisesClean (release_current id revision key) w
unfolding release_current
release_current_clean id revision key w e w' h = ground arith

pub release_clean :
    (id revision : ℕ) (key : String) (w : World) → RaisesClean (release id revision key) w
unfolding release release_from
release_clean id revision key w e w' h =
    ground (arith, release_current_clean id revision key w e w')

pub delete_clean :
    (hooks : Option Dispatcher) (jobs : Option JobStore) (id : ℕ) (w : World)
    → RaisesClean (revoke_certificate hooks jobs id) w
unfolding revoke_certificate revoke_from
delete_clean hooks jobs id w e w' h = ground arith

pub renew_clean : (id : ℕ) (w : World) → RaisesClean (request_manual_renewal id) w
unfolding request_manual_renewal
renew_clean id w e w' h = ground arith

insert_row_clean :
    (hooks : Option Dispatcher) (p : CertificateCreate) (row : Certificate) (w : World)
    → RaisesClean (insert_row hooks p row) w
unfolding insert_row
insert_row_clean hooks p row w e w' h = ground arith

create_from_clean :
    (backend : Backend) (hooks : Option Dispatcher) (o : Option Certificate) (id : ℕ) (account : _)
    (p : CertificateCreate) (w : World)
    → RaisesClean (create_from backend hooks o id account p) w
unfolding create_from
create_from_clean backend hooks (some existing) id account p w e w' h = ground arith
create_from_clean backend hooks none id account p w e w' h =
    ground (arith, λ (row : Certificate). insert_row_clean hooks p row w e w')

pub create_clean :
    (settings : AppSettings) (backend : Backend) (hooks : Option Dispatcher) (id : ℕ)
    (p : CertificateCreate) (w : World)
    → RaisesClean (create_certificate settings backend hooks id p) w
unfolding create_certificate
create_clean settings backend hooks id p w e w' h = ground (
  arith,
  λ (account : AcmeAccountConfig).
      create_from_clean backend hooks (find_request p w) id account p w e w',
)

-- The schedule of a renewal raises only where a date leaves the calendar.
schedule_raises :
    (scheduler : Option RenewalConfig) (c : Certificate) (w w' : World) (e : Failure)
    → schedule scheduler c w ≡ (err e, w')
    → e ≡ overflow
unfolding schedule_certificate next_renewal_run_time minus_days
schedule_raises none c w w' e h = ground arith
schedule_raises (some config) c w w' e h = ground arith

returning_raises :
    (c : Certificate) (r : Result (Unit {0}) × World) (e : Failure) (w' : World)
    → returning c r ≡ (err e, w')
    → r ≡ (err e, w')
returning_raises c (ok _, w) e w' h = ground arith
returning_raises c (err x, w) e w' h = ground arith

module _ (settings : AppSettings) (deployer : Deployer) (scheduler : Option RenewalConfig)
    (repr : String → String) where
  described_clean :
      (c : Certificate) (key : String) (paths : DeploymentPaths)
      (details : Result (Option GenerationDetails)) (expiry : Result (Option ℕ)) (w w' : World)
      (e : Failure)
      → select_described settings deployer scheduler repr c key paths details expiry w ≡ (err e, w')
      → (w' ≡ w) ⊎ (e ≡ overflow)
  described_clean c key paths (err x) expiry w w' e h = inl (ground arith)
  described_clean c key paths (ok details) (err x) w w' e h = inl (ground arith)
  described_clean c key paths (ok details) (ok expiry) w w' e h =
      inr (schedule_raises scheduler _ _ w' e (returning_raises _ _ e w' h))

  select_retained_clean :
      (c : Certificate) (key : String) (r : Result DeploymentPaths) (w w' : World) (e : Failure)
      → select_retained settings deployer scheduler repr c key r w ≡ (err e, w')
      → (w' ≡ w) ⊎ (e ≡ overflow)
  unfolding select_retained
  select_retained_clean c key (err x) w w' e h = inl (ground arith)
  select_retained_clean c key (ok paths) w w' e h =
      described_clean c key paths (generation_details deployer paths)
        (generation_expiry deployer paths) w w' e h

  select_from_clean :
      (o : Option Certificate) (generation key : String) (w w' : World) (e : Failure)
      → select_from settings deployer scheduler repr o generation key w ≡ (err e, w')
      → (w' ≡ w) ⊎ (e ≡ overflow)
  unfolding select_from
  select_from_clean none generation key w w' e h = inl (ground arith)
  select_from_clean (some c) generation key w w' e h =
      elim (Bool-cases (holds_text c.generation_selection_idempotency_key key)) [
        | inl q ↦ inl (ground arith)
        | inr q ↦
            select_retained_clean c key (retained settings deployer scheduler repr c generation) w
              w' e (ground arith)
      ]

  pub select_clean :
      (id : ℕ) (generation key : String) (w w' : World) (e : Failure)
      → select_deployment_generation settings deployer scheduler repr id generation key w
        ≡ (err e, w')
      → (w' ≡ w) ⊎ (e ≡ overflow)
  unfolding select_deployment_generation
  select_clean id generation key w w' e h = elim (Bool-cases settings.deployment.generation_aware) [
    | inl q ↦ select_from_clean (get id w) generation key w w' e (ground arith)
    | inr q ↦ inl (ground arith)
  ]
