-- ===== src/Services/Refinement/Selection.antt =====
-- Selecting a generation (acme_api/services/certificates.py) as a change of one row.
use acme_api.Common.{ℕ, String, Option, none, some, refl, ◌∙◌, holds_text, inl, inr, Option-cases}
use acme_api.Common.Table.{update-missing}
use acme_api.Models.Certificate.{Certificate, GenerationDetails}
use acme_api.Models.World.{World, Result, ok, err}
use acme_api.Ports.Settings.{AppSettings, RenewalConfig}
use acme_api.Ports.Deployer.{Deployer, DeploymentPaths}
use acme_api.Services.Generations.{generation_details, generation_expiry}
use acme_api.Services.Rows.{get, certificate_id}
use acme_api.Services.Selection.{
  selected_row, retained, select_retained, select_from, certificates-select_described,
  select_described,
}
use acme_api.Services.Change.{select}
use acme_api.Services.Effect.{Effect, same, changed, Effect-if}

module _ (settings : AppSettings) (deployer : Deployer) (scheduler : Option RenewalConfig)
    (repr : String → String) where
  described-Effect :
      (c : Certificate) (key : String) (paths : DeploymentPaths)
      (details : Result (Option GenerationDetails)) (expiry : Result (Option ℕ)) (w : World)
      → Effect w (select_described settings deployer scheduler repr c key paths details expiry w).1
  described-Effect c key paths (err e) expiry w = same refl
  described-Effect c key paths (ok details) (err e) w = same refl
  described-Effect c key paths (ok details) (ok expiry) w =
      let e =
        certificates-select_described settings deployer scheduler repr c key paths details expiry
          w in
      let row = selected_row key paths details expiry c in
      elim (Option-cases (get c.id w)) [
        | inl n ↦ same (e ∙ update-missing certificate_id c.id row w.certificates n)
        | inr (x, h) ↦ changed c.id x row h (select _ _ _ key refl) (λ y. refl) e
      ]

  select_retained-Effect :
      (c : Certificate) (key : String) (r : Result DeploymentPaths) (w : World)
      → Effect w (select_retained settings deployer scheduler repr c key r w).1
  unfolding select_retained
  select_retained-Effect c key (err e) w = same refl
  select_retained-Effect c key (ok paths) w =
      described-Effect c key paths (generation_details deployer paths)
        (generation_expiry deployer paths) w

  pub select_from-Effect :
      (seen : Option Certificate) (generation_id key : String) (w : World)
      → Effect w (select_from settings deployer scheduler repr seen generation_id key w).1
  unfolding select_from
  select_from-Effect none generation_id key w = same refl
  select_from-Effect (some c) generation_id key w =
      Effect-if (holds_text c.generation_selection_idempotency_key key) _ _ (λ _. same refl)
        (λ _.
          select_retained-Effect c key (retained settings deployer scheduler repr c generation_id)
            w)
