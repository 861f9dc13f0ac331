-- ===== src/Auth/Credentials.antt =====
-- New and replaced credentials (acme_api/admin_clients.py).
use acme_api.Common.{
  ℕ, String, none, some, List, [], ◌∷◌, ◌≡◌, refl, true, false, arith, ◌==◌, ltb, str_eq, eq_refl,
  any, or_false, holds_text, ◌||◌, Bool-cases, inl, inr,
}
use acme_api.Common.Table.{find, find_where}
use acme_api.Common.TextLaws.{after_prefix-append}
use acme_api.Auth.Keys.{
  Role, ApiKey, Digests, ClientStore, text_length, api_key_lookup_hash, hash_api_key,
  verify_api_key,
}
use acme_api.Auth.Access.{granted, unauthorized, is_candidate, authenticate}
use acme_api.Auth.Clients.{
  done, client_id, update_client, hashes, rotated, digest_taken, create_client, insert_client,
  rotate_client, rotate_with,
}
use Prim.Native.String.{◌++◌}

module _ (d : Digests) (salt : ℕ) (raw : String) where
  hashes_long :
      ltb (text_length raw) 8 ≡ false
      → str_eq raw "" ≡ false
      → hashes d salt raw ≡ done (d.salted_hash salt raw, d.lookup_digest raw)
  unfolding hash_api_key api_key_lookup_hash
  hashes_long long nonempty = rw (hashes, nonempty, long) refl

  -- A client created under a free name and a free digest, with a credential of eight characters or
  -- more whose hash is not empty and verifies it, is active and without an expiry, and is let in by
  -- that credential at once, under its name and with the role it was created with.
  pub created_let_in :
      (id : ℕ) (name : String) (role : Role) (s : ClientStore) (now : ℕ)
      → ltb (text_length raw) 8 ≡ false
      → str_eq raw "" ≡ false
      → str_eq (d.salted_hash salt raw) "" ≡ false
      → d.verify raw (d.salted_hash salt raw) ≡ some true
      → any
          (λ k. str_eq k.name name || holds_text k.key_lookup_hash (d.lookup_digest raw))
          s.clients
        ≡ false
      → let (answer, s') = create_client d id salt raw name role s in
        (answer
          ≡ done (record {
            id = id;
            name = name;
            hashed_key = d.salted_hash salt raw;
            key_lookup_hash = some (d.lookup_digest raw);
            role = role;
            is_active = true;
            expires_at = none;
          }))
        × (authenticate d s'.clients now (some ("Bearer " ++ raw))
            ≡ granted (record { key_id = id; role = role; name = name; expires_at = none }))
  unfolding create_client authenticate verify_api_key api_key_lookup_hash
  created_let_in id name role s now long nonempty stored verifies free =
      rw (hashes_long long nonempty, insert_client, free)
        (
          refl,
          rw
              (
                after_prefix-append "Bearer " raw,
                nonempty,
                eq_refl (d.lookup_digest raw),
                stored,
                verifies,
                nonempty,
              )
              refl,
        )

-- No active row has the digest any more.
rotated_away :
    (id : ℕ) (hashed old new : String) (ks : List ApiKey)
    → str_eq new old ≡ false
    → any (digest_taken id old) ks ≡ false
    → find_where (is_candidate old) (update_client id (rotated hashed new) ks) ≡ none
rotated_away id hashed old new [] ne free = refl
rotated_away id hashed old new (k ∷ ks) ne free =
    let (here, there) = or_false (digest_taken id old k) _ free in
    let rest = rotated_away id hashed old new ks ne there in
    elim (Bool-cases (k.id == id)) [
      | inl g ↦ rw (g, ne) (ground arith)
      | inr g ↦ rw g (ground arith)
    ]

module _ (d : Digests) where
  -- A client's credential is replaced by one of eight characters or more whose digest is unused and
  -- differs from the old one's; after that the old credential, of which no other client had the
  -- digest, is refused as invalid, whenever it comes.
  pub rotated_locked_out :
      (salt : ℕ) (old new : String) (k : ApiKey) (s : ClientStore) (now : ℕ)
      → find client_id k.id s.clients ≡ some k
      → ltb (text_length new) 8 ≡ false
      → str_eq new "" ≡ false
      → str_eq old "" ≡ false
      → any (digest_taken k.id (d.lookup_digest new)) s.clients ≡ false
      → any (digest_taken k.id (d.lookup_digest old)) s.clients ≡ false
      → str_eq (d.lookup_digest new) (d.lookup_digest old) ≡ false
      → let (answer, s') = rotate_client d k.id salt new s in
        (answer ≡ done (rotated (d.salted_hash salt new) (d.lookup_digest new) k))
        × (authenticate d s'.clients now (some ("Bearer " ++ old))
            ≡ unauthorized "Invalid API key.")
  unfolding rotate_client authenticate api_key_lookup_hash
  rotated_locked_out salt old new k s now h long nonempty nonempty_old unused free differ =
      rw (h, rotate_client, hashes_long d salt new long nonempty, rotate_with, unused)
        (
          refl,
          rw
              (
                after_prefix-append "Bearer " old,
                nonempty_old,
                rotated_away k.id (d.salted_hash salt new) (d.lookup_digest old)
                    (d.lookup_digest new) s.clients differ free,
              )
              refl,
        )
