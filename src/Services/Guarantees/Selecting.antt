-- ===== src/Services/Guarantees/Selecting.antt =====
-- Selecting a retained generation (acme_api/services/certificates.py) once for each key.
use acme_api.Common.{
  ℕ, ap, ◌∙◌, number_eq, String, Option, some, ◌≡◌, ◌≢◌, refl, true, false, arith, str_eq, eq_refl,
  eq_iff, holds_text,
}
use acme_api.Models.Certificate.{Certificate, GenerationDetails}
use acme_api.Models.World.{World, ok, err, lifecycle}
use acme_api.Ports.Settings.{AppSettings, RenewalConfig}
use acme_api.Ports.Deployer.{Deployer, DeploymentPaths}
use acme_api.Services.Assigned.{
  assigned-fresh, text_eq, details_eq, text_eq_sound, details_eq_sound, number_eq_sound,
}
use acme_api.Services.Generations.{generation_details, generation_expiry}
use acme_api.Services.Rows.{get, get-put_self}
use acme_api.Services.Selection.{
  certificates-select_described, selected_row, retained, select_retained, select_from,
  select_deployment_generation,
}

-- The row that describes the generation.
abbrev pub chosen_row :
    String → DeploymentPaths → Option GenerationDetails → Option ℕ → Certificate → Certificate
chosen_row key paths details expiry c = record c {
  current_generation_id = paths.generation_id;
  current_generation_details = details;
  expiry_date = expiry;
  generation_selection_idempotency_key = some key;
}

selected_row-fresh :
    (key : String) (paths : DeploymentPaths) (details : Option GenerationDetails)
    (expiry : Option ℕ) (c : Certificate)
    → selected_row key paths details expiry c c ≡ chosen_row key paths details expiry c
selected_row-fresh key paths details expiry c =
    rw
      (
        assigned-fresh text_eq c.current_generation_id paths.generation_id (text_eq_sound _ _),
        assigned-fresh details_eq c.current_generation_details details (details_eq_sound _ _),
        assigned-fresh number_eq c.expiry_date expiry (number_eq_sound _ _),
      )
      refl

module _ (settings : AppSettings) (deployer : Deployer) (scheduler : Option RenewalConfig)
    (repr : String → String) where
  select_writes :
      (c : Certificate) (key : String) (paths : DeploymentPaths)
      (details : Option GenerationDetails) (expiry : Option ℕ) (w : World)
      → get c.id w ≡ some c
      → generation_details deployer paths ≡ ok details
      → generation_expiry deployer paths ≡ ok expiry
      → get c.id (select_retained settings deployer scheduler repr c key (ok paths) w).1
        ≡ some (chosen_row key paths details expiry c)
  unfolding select_retained
  select_writes c key paths details expiry w h d x =
      rw
        (
          select_retained,
          d,
          x,
          certificates-select_described settings deployer scheduler repr c key paths details expiry
              w,
        )
        (get-put_self (selected_row key paths details expiry c) (λ x. refl) c.id c w h
          ∙ ap some (selected_row-fresh key paths details expiry c))

  -- Where deployment keeps generations: once a retained generation, whose metadata can be read, has
  -- been selected under a key that was not used before, the row describes that generation; the same
  -- request again returns the row and changes nothing more, and the same key with another
  -- generation is refused and changes nothing.
  pub select_idempotent :
      (c : Certificate) (generation_id other key : String) (paths : DeploymentPaths)
      (details : Option GenerationDetails) (expiry : Option ℕ) (w : World)
      → settings.deployment.generation_aware ≡ true
      → get c.id w ≡ some c
      → holds_text c.generation_selection_idempotency_key key ≡ false
      → retained settings deployer scheduler repr c generation_id ≡ ok paths
      → paths.generation_id ≡ some generation_id
      → generation_details deployer paths ≡ ok details
      → generation_expiry deployer paths ≡ ok expiry
      → other ≢ generation_id
      → let select = select_deployment_generation settings deployer scheduler repr c.id in
        let w' = (select generation_id key w).1 in
        (get c.id w' ≡ some (chosen_row key paths details expiry c))
        × (select generation_id key w' ≡ (ok (chosen_row key paths details expiry c), w'))
        × (select other key w'
            ≡ (err (lifecycle "Idempotency key was already used for another generation."), w'))
  unfolding select_deployment_generation
  select_idempotent c generation_id other key paths details expiry w aware h fresh r g d x ne =
      let w' = (select_retained settings deployer scheduler repr c key (ok paths) w).1 in
      let written = select_writes c key paths details expiry w h d x in
      let differs : str_eq generation_id other ≡ false =
        ground (arith, eq_iff generation_id other) in
      rw (aware, h, select_from, fresh, r)
        (
          written,
          rw (written, select_from, eq_refl key, g, eq_refl generation_id) refl,
          rw (written, select_from, eq_refl key, g, differs) refl,
        )
