-- ===== src/Auth/Tests.antt =====
-- The theorems about access at concrete inputs.
use acme_api.Common.{none, String, some, [], ◌∷◌, ◌≡◌, ◌≢◌, refl, str_eq}
use acme_api.Auth.Keys.{
  admin, operator, readonly, ApiKey, Digests, ClientStore, api_key_lookup_hash, verify_api_key,
}
use acme_api.Auth.Access.{granted, unauthorized, user_of, authenticate}
use acme_api.Auth.Clients.{done, new_client, rotated, create_client, rotate_client, revoke_client}
use acme_api.Auth.Soundness.{Grant, authenticate_sound}
use acme_api.Auth.Revoked.{revoked_locked_out}
use acme_api.Auth.Credentials.{created_let_in, rotated_locked_out}
use Prim.Native.String.{◌++◌}

-- Digests that are easy to tell apart.
abbrev digests : Digests
digests = record {
  lookup_digest = λ s. "d" ++ s;
  salted_hash = λ salt s. "h" ++ s;
  verify = λ c stored. some (str_eq stored ("h" ++ c));
}

abbrev first_key : ApiKey
first_key = new_client 1 "initial-admin" "hsecret-secret-00" "dsecret-secret-00" admin

abbrev second_key : ApiKey
second_key = new_client 2 "ci" "hsecret-secret-01" "dsecret-secret-01" readonly

abbrev store : ClientStore
store = record { clients = first_key ∷ second_key ∷ []; events = [] }

authenticate_sound_example :
    (token : String) × (some "Bearer secret-secret-01" ≡ some ("Bearer " ++ token))
    × Grant digests store.clients 100 token (user_of second_key)
unfolding authenticate api_key_lookup_hash verify_api_key
authenticate_sound_example =
    authenticate_sound digests store.clients 100 (user_of second_key)
      (some "Bearer secret-secret-01") refl

-- After the second client is revoked, the first one is still let in.
revoked_locked_out_example : (user_of first_key).key_id ≢ 2
unfolding authenticate api_key_lookup_hash verify_api_key revoke_client
revoked_locked_out_example =
    revoked_locked_out digests 2 store 100 (some "Bearer secret-secret-00") (user_of first_key) refl

created_let_in_example :
    let (answer, s') = create_client digests 3 0 "secret-secret-02" "deploy" operator store in
    (answer ≡ done (new_client 3 "deploy" "hsecret-secret-02" "dsecret-secret-02" operator))
    × (authenticate digests s'.clients 100 (some "Bearer secret-secret-02")
        ≡ granted (record { key_id = 3; role = operator; name = "deploy"; expires_at = none }))
created_let_in_example =
    created_let_in digests 0 "secret-secret-02" 3 "deploy" operator store 100 refl refl refl refl
      refl

rotated_locked_out_example :
    let (answer, s') = rotate_client digests 2 0 "secret-secret-03" store in
    (answer ≡ done (rotated "hsecret-secret-03" "dsecret-secret-03" second_key))
    × (authenticate digests s'.clients 100 (some "Bearer secret-secret-01")
        ≡ unauthorized "Invalid API key.")
rotated_locked_out_example =
    rotated_locked_out digests 0 "secret-secret-01" "secret-secret-03" second_key store 100 refl
      refl refl refl refl refl refl

abbrev empty : ClientStore
empty = record { clients = []; events = [] }
