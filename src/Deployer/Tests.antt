-- ===== src/Deployer/Tests.antt =====
-- The theorems about directory names at concrete inputs.
use acme_api.Deployer.Kept.{IsRemovable, cleanup_protects}
use acme_api.Deployer.Retention.{Generation, cleanup_generations, visible_generations}
use acme_api.Common.{◌≤◌, leb, count, true, ℕ, none, some, List, [], ◌∷◌, All, String, ◌≡◌, refl}
use acme_api.Models.World.{ok}
use acme_api.Deployer.Names.{deployment_directory_name}

wildcard_directory :
    deployment_directory_name (λ s. s) "*.example.org" ≡ ok "@wildcard@.example.org"
unfolding deployment_directory_name
wildcard_directory = refl

-- Three generations, of which the oldest is pinned and a hidden one is being written.
abbrev entry : String → ℕ → Generation
entry name modified = record { name = name; is_directory = true; modified = modified }

abbrev entries : List Generation
entries = entry "g1" 1 ∷ entry "g3" 3 ∷ entry ".g4" 4 ∷ entry "g2" 2 ∷ entry "g0" 0 ∷ []

one_removed :
    cleanup_generations (some 2) none 10 (some "g3") ("g0" ∷ []) entries ≡ entry "g1" 1 ∷ []
unfolding cleanup_generations
one_removed = refl

cleanup_protects_example :
    All
      (IsRemovable none 10 (some "g3") ("g0" ∷ []))
      (cleanup_generations (some 2) none 10 (some "g3") ("g0" ∷ []) entries)
    × All
        (λ g. 3 ≤ count (λ h. leb g.modified h.modified) (visible_generations entries))
        (cleanup_generations (some 2) none 10 (some "g3") ("g0" ∷ []) entries)
cleanup_protects_example = cleanup_protects 2 none 10 (some "g3") ("g0" ∷ []) entries
