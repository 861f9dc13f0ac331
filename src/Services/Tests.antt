-- ===== src/Services/Tests.antt =====
-- The theorems about the certificate service at concrete inputs.
use acme_api.Services.Unique.{IsUnique, Reach-IsUnique}
use acme_api.Common.{◌⊎◌, false, none, some, [], ◌∷◌, ◌≡◌, refl, true, ne-str_eq}
use acme_api.Samples.{
  renewal_config, renewal_config, account, settings, base_row, held_row, valid_row, pending_row,
  world, working_backend, missing_backend, issuance, paths, deployer,
}
use acme_api.Models.Certificate.{
  GenerationDetails, valid, Certificate, issuing, revoked, released, dns_01, dns_persist, renewing,
}
use acme_api.Models.World.{World, ok, err, lifecycle, os_error}
use acme_api.Services.Rows.{get, put, with_status}
use acme_api.Services.Holds.{release, release_from, released_row}
use acme_api.Services.Issuance.{issued, finish}
use acme_api.Services.Effect.{Effect, Overwritten, Survives}
use acme_api.Services.Interleaving.{Step, tick, Reach, here, next, Step-Effect, Reach-Survives}
use acme_api.Services.Interleaving
use acme_api.Services.Guarantees.Release.{release_exclusive, release_replay, release_idempotent}
use acme_api.Services.Guarantees.Discard.{finish_discarded}
use acme_api.Services.Guarantees.Creation.{create_race}
use acme_api.Services.Guarantees.Selecting.{chosen_row, select_idempotent}
use acme_api.Services.Races.{claim_overwrites}
use acme_api.Services.Stranded.{renew_stranded}
use acme_api.Services.Issuance.{claim_pending}
use acme_api.Services.Requests.{
  CertificateCreate, create_from, find_request, build_row, persist_row,
}
use acme_api.Services.Generations.{generation_details, generation_expiry}
use acme_api.Services.Selection.{retained, select_deployment_generation}
use acme_api.Scheduler.Renewal.{attempt_renewal, renew_certificate}
use acme_api.Models.Certificate.{same_status}

-- The held row released under the key "k1", and two more steps: its issuance is claimed, and time
-- passes.
abbrev released_world : World
released_world = (release 1 1 "k1" world).1

abbrev later_world : World
later_world = record released_world { now = 63800000100 }

later : Reach released_world later_world
later = next here (tick 63800000100)

Step-Effect_example :
    Effect world (release_from (some held_row) 1 1 "k1" world).1
    ⊎ Overwritten (λ j. false) world (release_from (some held_row) 1 1 "k1" world).1
Step-Effect_example = Step-Effect (Interleaving.release (some held_row) 1 1 "k1")

released_first : Reach world released_world
unfolding release
released_first = next here (Interleaving.release (some held_row) 1 1 "k1")

Reach-Survives_example : Survives 2 valid_row released_world
Reach-Survives_example = Reach-Survives released_first 2 valid_row refl

released_written : get 1 released_world ≡ some (released_row "k1" held_row)
unfolding release release_from
released_written = refl

release_exclusive_example :
    release_from (some held_row) 1 2 "k2" later_world
    ≡ (err (lifecycle "Certificate revision is stale or cannot be released."), later_world)
release_exclusive_example =
    release_exclusive 1 2 "k1" "k2" (released_row "k1" held_row) held_row released_world later_world
      released_written refl (ne-str_eq "k1" "k2" refl) later refl refl

release_replay_example :
    (now : Certificate) × (get 1 later_world ≡ some now)
    × (release 1 7 "k1" later_world ≡ (ok (now, same_status now.status released), later_world))
release_replay_example =
    release_replay 1 7 "k1" (released_row "k1" held_row) released_world later_world released_written
      refl refl later

release_idempotent_example :
    ((release 1 1 "k1" world).0 ≡ ok (released_row "k1" held_row, true))
    × (get 1 released_world ≡ some (released_row "k1" held_row))
    × (release 1 1 "k1" released_world ≡ (ok (released_row "k1" held_row, true), released_world))
release_idempotent_example = release_idempotent 1 1 "k1" held_row world refl refl refl

-- The third row was deleted while it was being issued.
abbrev revoked_world : World
revoked_world = put 3 (with_status revoked) world

abbrev later_revoked : World
later_revoked = record revoked_world { now = 63800000200 }

finish_discarded_example :
    (finish deployer none (some renewal_config) 3 (issued issuance (paths "g2")) later_revoked).1
    ≡ later_revoked
finish_discarded_example =
    finish_discarded deployer none (some renewal_config) 3 (issued issuance (paths "g2"))
      (base_row 3 dns_01 revoked) revoked_world later_revoked refl refl
      (next here (tick 63800000200)) refl

abbrev issued_details : GenerationDetails
issued_details = record {
  generation_id = "g2";
  cert_path = "/certificates/example.org/cert.pem";
  chain_path = "/certificates/example.org/chain.pem";
  fullchain_path = "/certificates/example.org/fullchain.pem";
  privkey_path = "/certificates/example.org/privkey.pem";
  fingerprint_sha256 = "fingerprint";
  serial = some "01";
  subjects = "example.org" ∷ [];
  not_after = 63910000000;
}

claim_overwrites_example :
    let (claimed, w') = claim_pending (some pending_row) revoked_world in
    (claimed ≡ some (record pending_row { status = issuing }))
    × (get 3 (finish deployer none none 3 (issued issuance (paths "g2")) w').1
        ≡ some (record (base_row 3 dns_01 valid) {
          expiry_date = some 63910000000;
          current_generation_id = some "g2";
          current_generation_details = some issued_details;
        }))
unfolding generation_details
claim_overwrites_example =
    claim_overwrites deployer none none pending_row (base_row 3 dns_01 revoked) issuance
      (paths "g2") (some issued_details) revoked_world refl refl refl

-- The second row asks for the name, account and method that the first row has.
abbrev again : CertificateCreate
again = record {
  name = "site";
  domains = "example.org" ∷ [];
  acme_account_ref = "main";
  challenge_method = dns_persist;
  dns_provider_ref = none;
  key_algorithm = "ecdsa";
  held = true;
}

create_race_example :
    create_from working_backend none none 9 account again world
    ≡ create_from working_backend none (some held_row) 9 account again world
create_race_example =
    create_race working_backend none 9 account again held_row
      (persist_row 9 again "example.org" "value") world found built
  where
    found : find_request again world ≡ some held_row
    found = unfold find_request in refl

    built :
        build_row working_backend 9 account again ≡ ok (persist_row 9 again "example.org" "value")
    built = unfold build_row in refl

renew_stranded_example :
    let (answer, w') =
      renew_certificate renewal_config missing_backend deployer none none 2 world in
    (answer ≡ err (os_error "no acme.sh"))
    × (w'.attempts ≡ [])
    × (get 2 w' ≡ some (with_status renewing valid_row))
    × (renew_certificate renewal_config missing_backend deployer none none 2 w' ≡ (ok tt, w'))
unfolding attempt_renewal
renew_stranded_example =
    renew_stranded renewal_config missing_backend deployer none none valid_row
      (os_error "no acme.sh") world refl refl refl

abbrev selected_details : GenerationDetails
selected_details = record issued_details { generation_id = "g1" }

select_idempotent_example :
    let select = select_deployment_generation settings deployer none (λ s. s) 2 in
    let w' = (select "g1" "s1" world).1 in
    (get 2 w'
      ≡ some (chosen_row "s1" (paths "g1") (some selected_details) (some 63910000000) valid_row))
    × (select "g1" "s1" w' ≡ (
      ok (chosen_row "s1" (paths "g1") (some selected_details) (some 63910000000) valid_row),
      w',
    ))
    × (select "g2" "s1" w'
        ≡ (err (lifecycle "Idempotency key was already used for another generation."), w'))
unfolding retained generation_details generation_expiry
select_idempotent_example =
    select_idempotent settings deployer none (λ s. s) valid_row "g1" "g2" "s1" (paths "g1")
      (some selected_details) (some 63910000000) world refl refl refl refl refl refl refl
      (ne-str_eq "g2" "g1" refl)

Reach-IsUnique_example : IsUnique released_world
Reach-IsUnique_example = Reach-IsUnique world released_world released_first (refl, refl)
