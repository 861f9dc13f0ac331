-- ===== src/Auth/Soundness.antt =====
-- Granted requests (acme_api/auth/rbac.py).
use acme_api.Common.{
  ℕ, String, Option, none, some, List, ◌≡◌, refl, ap, true, false, arith, Bool-cases, and_true, inl,
  inr,
}
use acme_api.Common.Table.{find_where, find_where-holds}
use acme_api.Common.Text.{after_prefix}
use acme_api.Common.TextLaws.{append-after_prefix}
use acme_api.Auth.Keys.{ApiKey, Digests, api_key_lookup_hash, verify_api_key}
use acme_api.Auth.Access.{
  AuthenticatedUser, granted, is_candidate, expired, user_of, with_candidate, with_digest,
  with_token, authenticate,
}
use Prim.Native.String.{◌++◌}

-- Why a request was granted.
pub record Grant (d : Digests) (keys : List ApiKey) (now : ℕ) (token : String)
    (u : AuthenticatedUser) : Type 0 where
  pub key : ApiKey
  pub digest : String
  pub looked_up : api_key_lookup_hash d token ≡ some digest
  pub found : find_where (is_candidate digest) keys ≡ some key
  pub active : key.is_active ≡ true
  pub verified : verify_api_key d token key.hashed_key ≡ true
  pub current : expired key.expires_at now ≡ false
  pub described : user_of key ≡ u

module _ (d : Digests) (keys : List ApiKey) (now : ℕ) (u : AuthenticatedUser) where
  candidate_granted :
      (token : String) (o : Option ApiKey)
      → with_candidate d token now o ≡ granted u
      → (k : ApiKey) × (o ≡ some k)
        × (verify_api_key d token k.hashed_key ≡ true)
        × (expired k.expires_at now ≡ false)
        × (user_of k ≡ u)
  candidate_granted token none h = ground arith
  candidate_granted token (some k) h = elim (Bool-cases (verify_api_key d token k.hashed_key)) [
    | inl g ↦ elim (Bool-cases (expired k.expires_at now)) [
      | inl e ↦ ground arith
      | inr e ↦ (k, refl, g, e, ground arith)
    ]
    | inr g ↦ ground arith
  ]

  from_candidate :
      (token digest : String)
      → api_key_lookup_hash d token ≡ some digest
      → with_candidate d token now (find_where (is_candidate digest) keys) ≡ granted u
      → Grant d keys now token u
  from_candidate token digest look h =
      let (k, f, v, e, same) = candidate_granted token (find_where (is_candidate digest) keys) h in
      record {
        key = k;
        digest = digest;
        looked_up = look;
        found = f;
        active = (and_true _ _ (find_where-holds (is_candidate digest) keys k f)).0;
        verified = v;
        current = e;
        described = same;
      }

  from_digest :
      (token : String) (o : Option String)
      → api_key_lookup_hash d token ≡ o
      → with_digest d keys now token o ≡ granted u
      → Grant d keys now token u
  from_digest token none e h = ground arith
  from_digest token (some digest) e h = from_candidate token digest e h

  from_token :
      (s : String) (o : Option String)
      → after_prefix "Bearer " s ≡ o
      → with_token d keys now o ≡ granted u
      → (token : String) × (some s ≡ some ("Bearer " ++ token)) × Grant d keys now token u
  from_token s none e h = ground arith
  from_token s (some token) e h = (
    token,
    ap some (append-after_prefix "Bearer " s token e),
    from_digest token (api_key_lookup_hash d token) refl h,
  )

  -- A request that is granted carries the header "Bearer " followed by a key of the table: the row
  -- that the look-up digest finds is active, its hash verifies the key, it has not expired, and the
  -- user is the one that the row describes.
  pub authenticate_sound :
      (header : Option String)
      → authenticate d keys now header ≡ granted u
      → (token : String) × (header ≡ some ("Bearer " ++ token)) × Grant d keys now token u
  unfolding authenticate
  authenticate_sound none h = ground arith
  authenticate_sound (some s) h = from_token s (after_prefix "Bearer " s) refl h
