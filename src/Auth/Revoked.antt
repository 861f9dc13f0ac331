-- ===== src/Auth/Revoked.antt =====
-- Revoked clients (acme_api/admin_clients.py).
use acme_api.Common.{
  ℕ, String, Option, none, some, List, [], ◌∷◌, ◌≡◌, ◌≢◌, refl, sym, ap, ◌∙◌, false, arith, ◌==◌,
  Option-cases, Bool-cases, inl, inr,
}
use acme_api.Common.Table.{find, find_where, find-key}
use acme_api.Auth.Keys.{ApiKey, Digests, ClientStore}
use acme_api.Auth.Access.{AuthenticatedUser, granted, is_candidate, authenticate}
use acme_api.Auth.Clients.{client_id, update_client, deactivated, revoke_client}
use acme_api.Auth.Soundness.{authenticate_sound}

-- No active row with the id is left.
found_other :
    (digest : String) (id : ℕ) (ks : List ApiKey) (k : ApiKey)
    → find_where (is_candidate digest) (update_client id deactivated ks) ≡ some k
    → (k.id == id) ≡ false
found_other digest id [] k e = ground arith
found_other digest id (x ∷ ks) k e = elim (Bool-cases (x.id == id)) [
  | inl g ↦ found_other digest id ks k (ground arith)
  | inr g ↦ elim (Bool-cases (is_candidate digest x)) [
    | inl c ↦ ground arith
    | inr c ↦ found_other digest id ks k (ground arith)
  ]
]

found_absent :
    (digest : String) (id : ℕ) (ks : List ApiKey) (k : ApiKey)
    → find client_id id ks ≡ none
    → find_where (is_candidate digest) ks ≡ some k
    → (k.id == id) ≡ false
found_absent digest id [] k a e = ground arith
found_absent digest id (x ∷ ks) k a e = elim (Bool-cases (x.id == id)) [
  | inl g ↦ ground arith
  | inr g ↦ elim (Bool-cases (is_candidate digest x)) [
    | inl c ↦ ground arith
    | inr c ↦ found_absent digest id ks k (ground arith) (ground arith)
  ]
]

clients-revoke_none :
    (id : ℕ) (s : ClientStore)
    → find client_id id s.clients ≡ none
    → (revoke_client id s).1.clients ≡ s.clients
unfolding revoke_client
clients-revoke_none id s n = rw (n, revoke_client) refl

clients-revoke_some :
    (id : ℕ) (s : ClientStore) (c : ApiKey)
    → find client_id id s.clients ≡ some c
    → (revoke_client id s).1.clients ≡ update_client c.id deactivated s.clients
unfolding revoke_client
clients-revoke_some id s c n = rw (n, revoke_client) refl

after_revoke :
    (digest : String) (id : ℕ) (s : ClientStore) (k : ApiKey)
    → find_where (is_candidate digest) (revoke_client id s).1.clients ≡ some k
    → (k.id == id) ≡ false
after_revoke digest id s k e = elim (Option-cases (find client_id id s.clients)) [
  | inl n ↦
      found_absent digest id s.clients k n
        (ap (find_where (is_candidate digest)) (sym (clients-revoke_none id s n)) ∙ e)
  | inr (c, n) ↦
      let same : c.id ≡ id = find-key client_id id s.clients c n in
      found_other digest id s.clients k (
        ap (λ i. find_where (is_candidate digest) (update_client i deactivated s.clients))
          (sym same)
        ∙ ap (find_where (is_candidate digest)) (sym (clients-revoke_some id s c n))
        ∙ e)
]

-- After a client is revoked, no request is granted as that client, whatever its header and
-- whenever it comes.
pub revoked_locked_out :
    (d : Digests) (id : ℕ) (s : ClientStore) (now : ℕ) (header : Option String)
    (u : AuthenticatedUser)
    → authenticate d (revoke_client id s).1.clients now header ≡ granted u
    → u.key_id ≢ id
revoked_locked_out d id s now header u h same =
    let (token, _, grant) = authenticate_sound d (revoke_client id s).1.clients now u header h in
    let other : (grant.key.id == id) ≡ false =
      after_revoke grant.digest id s grant.key grant.found in
    let e : grant.key.id ≡ id = ap (λ (v : AuthenticatedUser). v.key_id) grant.described ∙ same in
    ground arith
