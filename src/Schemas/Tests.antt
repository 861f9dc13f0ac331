-- ===== src/Schemas/Tests.antt =====
-- The validation of domains at concrete requests.
use acme_api.Common.{◌≡◌, refl, String, List, [], ◌∷◌, All, contains, map, str_eq}
use acme_api.Models.World.{ok}
use acme_api.Deployer.Names.{directory_of_safe, deployment_directory_name}
use acme_api.Schemas.Domains.{valid, invalid, normalize, validate_domains}
use acme_api.Schemas.Accepted.{IsAccepted, NoRepeats, validated_domains}
use acme_api.Schemas.Directories.{validated_directories}

abbrev requested : List String
requested = " *.Example.org" ∷ "www.example.org" ∷ "API.example.org " ∷ "www.example.org" ∷ []

abbrev accepted : List String
accepted = "*.example.org" ∷ "api.example.org" ∷ "www.example.org" ∷ []

sorted_after_primary : validate_domains (λ s. s) requested ≡ valid accepted
unfolding validate_domains
sorted_after_primary = refl

single : validate_domains (λ s. s) ("www.example.org" ∷ []) ≡ valid ("www.example.org" ∷ [])
unfolding validate_domains
single = refl

label_refused :
    validate_domains (λ s. s) ("-a.example.org" ∷ [])
    ≡ invalid "Domain -a.example.org does not match a valid DNS label pattern."
unfolding validate_domains
label_refused = refl

validated_domains_example :
    ((more : List String) × (accepted ≡ normalize " *.Example.org" ∷ more))
    × All IsAccepted accepted
    × NoRepeats accepted
    × ((d : String) → contains d accepted ≡ contains d (map normalize requested))
validated_domains_example =
    validated_domains (λ s. s) " *.Example.org"
      ("www.example.org" ∷ "API.example.org " ∷ "www.example.org" ∷ []) accepted
      sorted_after_primary

validated_directories_example :
    (deployment_directory_name (λ s. s) "*.example.org" ≡ ok (directory_of_safe "*.example.org"))
    × (deployment_directory_name (λ s. s) "www.example.org"
        ≡ ok (directory_of_safe "www.example.org"))
    × (str_eq (directory_of_safe "*.example.org") (directory_of_safe "www.example.org")
        ≡ str_eq "*.example.org" "www.example.org")
validated_directories_example =
    validated_directories (λ s. s) "*.example.org" "www.example.org"
      ("api.example.org" ∷ "www.example.org" ∷ []) [] requested ("www.example.org" ∷ [])
      sorted_after_primary single
