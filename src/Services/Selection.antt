-- ===== src/Services/Selection.antt =====
-- `select_deployment_generation` of acme_api/services/certificates.py: putting a retained
-- generation back into use, once for each idempotency key.
use acme_api.Scheduler.Schedule.{certificates-schedule}
use acme_api.Common.{◌≡◌, refl, ℕ, String, Option, none, some, holds_text, number_eq, if◌then◌else◌}
use acme_api.Deployer.Names.{directory_of}
use acme_api.Models.Certificate.{Certificate, GenerationDetails}
use acme_api.Models.World.{
  World, Failure, os_error, lifecycle, not_found, deployment, Result, ok, err, Action,
}
use acme_api.Ports.Settings.{AppSettings, RenewalConfig}
use acme_api.Ports.Deployer.{
  DeploymentPaths, deployed, deployment_failed, deployment_os_error, Deployer,
}
use acme_api.Services.Assigned.{assigned, text_eq, details_eq}
use acme_api.Services.Generations.{generation_details, generation_expiry}
use acme_api.Services.Issuance.{schedule}
use acme_api.Services.Rows.{get, put}

-- The answer with the row, after an action for its effect only.
abbrev pub returning : Certificate → Result (Unit {0}) × World → Result Certificate × World
returning c (ok _, w) = (ok c, w)
returning c (err e, w) = (err e, w)

-- The row in the table, from the row `held` that was read. The key is set only where it is another.
abbrev pub selected_row :
    String
    → DeploymentPaths
    → Option GenerationDetails
    → Option ℕ
    → (held : Certificate) → Certificate
    → Certificate
selected_row key paths details expiry held c = record c {
  current_generation_id =
      assigned text_eq held.current_generation_id paths.generation_id c.current_generation_id;
  current_generation_details =
      assigned details_eq held.current_generation_details details c.current_generation_details;
  expiry_date = assigned number_eq held.expiry_date expiry c.expiry_date;
  generation_selection_idempotency_key = some key;
}

-- The text of an error of the deployer, which is raised again as a lifecycle error.
abbrev raised_again : Failure → Failure
raised_again (deployment m) = lifecycle m
raised_again e = e

module _ (settings : AppSettings) (deployer : Deployer) (scheduler : Option RenewalConfig)
    (repr : String → String) where
  -- `select_generation` in the directory of the certificate.
  unfoldable pub retained : Certificate → String → Result DeploymentPaths
  unfolding directory_of
  retained c generation_id = elim (directory_of repr c.domains) [
    | err e ↦ err (raised_again e)
    | ok name ↦ elim (deployer.select_generation settings.deployment.directory name generation_id) [
      | deployed paths ↦ ok paths
      | deployment_failed m ↦ err (lifecycle m)
      | deployment_os_error m ↦ err (os_error m)
    ]
  ]

  abbrev pub select_described :
      Certificate
      → String
      → DeploymentPaths
      → Result (Option GenerationDetails)
      → Result (Option ℕ)
      → Action Certificate
  select_described c key paths (err e) expiry w = (err e, w)
  select_described c key paths (ok details) (err e) w = (err e, w)
  select_described c key paths (ok details) (ok expiry) w =
      let row = selected_row key paths details expiry c c in
      returning row (schedule scheduler row (put c.id (selected_row key paths details expiry c) w))

  unfoldable pub select_retained :
      Certificate → String → Result DeploymentPaths → Action Certificate
  unfolding generation_details generation_expiry
  select_retained c key (err e) w = (err e, w)
  select_retained c key (ok paths) w =
      select_described c key paths (generation_details deployer paths)
        (generation_expiry deployer paths) w

  unfoldable pub select_from : Option Certificate → String → String → Action Certificate
  unfolding select_retained retained
  select_from none generation_id key w = (err (not_found "Certificate not found."), w)
  select_from (some c) generation_id key w =
      if holds_text c.generation_selection_idempotency_key key
      then (
        if holds_text c.current_generation_id generation_id
            then ok c
            else err (lifecycle "Idempotency key was already used for another generation."),
        w,
      )
      else select_retained c key (retained c generation_id) w

  unfoldable pub select_deployment_generation : ℕ → String → String → Action Certificate
  unfolding select_from
  select_deployment_generation id generation_id key w =
      if settings.deployment.generation_aware
      then select_from (get id w) generation_id key w
      else (err (lifecycle "Generation-aware deployment is not enabled."), w)

-- What scheduling and returning leave of the table.
pub certificates-schedule_optional :
    (scheduler : Option RenewalConfig) (c : Certificate) (w : World)
    → (schedule scheduler c w).1.certificates ≡ w.certificates
certificates-schedule_optional none c w = refl
certificates-schedule_optional (some config) c w = certificates-schedule config c w

world-returning : (c : Certificate) (r : Result (Unit {0}) × World) → (returning c r).1 ≡ r.1
world-returning c (ok _, w) = refl
world-returning c (err e, w) = refl

pub certificates-select_described :
    (settings : AppSettings) (deployer : Deployer) (scheduler : Option RenewalConfig)
    (repr : String → String) (c : Certificate) (key : String) (paths : DeploymentPaths)
    (details : Option GenerationDetails) (expiry : Option ℕ) (w : World)
    → (select_described settings deployer scheduler repr c key paths
        (ok details)
        (ok expiry)
        w).1.certificates
      ≡ (put c.id (selected_row key paths details expiry c) w).certificates
certificates-select_described settings deployer scheduler repr c key paths details expiry w =
    let row = selected_row key paths details expiry c c in
    let w' = put c.id (selected_row key paths details expiry c) w in
    rw (world-returning row (schedule scheduler row w'))
      (certificates-schedule_optional scheduler row w')
