-- ===== src/Services/Change.antt =====
-- The lifecycle of one certificate row as a state machine: the changes that the service makes to
-- a row, apart from how they are requested, guarded and stored.
use acme_api.Common.{
  str_eq, ◌&&◌, ℕ, ◌≤◌, String, Option, none, some, ◌≡◌, refl, ◌⊎◌, Bool, true, false, arith,
}
use acme_api.Models.Certificate.{
  same_method, Status, pending, pending_dns, held, authorization_ready, released, issuing, renewing,
  valid, failed, cancelled, revoked, Certificate, GenerationDetails,
}
use acme_api.Services.Rows.{with_status}
use acme_api.Services.Holds.{ready_row, released_row}

-- Deleted rows.
abbrev pub is_retired : Status → Bool
is_retired cancelled = true
is_retired revoked = true
is_retired _ = false

-- The unique constraint of the table, between two rows.
abbrev pub same_identity : Certificate → Certificate → Bool
same_identity a b =
    str_eq b.name a.name
    && str_eq b.acme_account_ref a.acme_account_ref
    && same_method b.challenge_method a.challenge_method

pub data Change (c c' : Certificate) : Type 0 where
  ready : c.status ≡ held → c' ≡ ready_row c → Change c c'
  request :
      (c.status ≡ pending_dns) ⊎ (c.status ≡ failed) → c' ≡ with_status issuing c → Change c c'
  release :
      (key : String)
      → c.release_idempotency_key ≡ none
      → (c.status ≡ held) ⊎ (c.status ≡ authorization_ready)
      → c' ≡ released_row key c
      → Change c c'
  claim : (c.status ≡ pending) ⊎ (c.status ≡ released) → c' ≡ with_status issuing c → Change c c'
  complete :
      (expiry : Option ℕ) (generation : Option String) (details : Option GenerationDetails)
      → c.status ≡ issuing
      → c' ≡ record c {
        expiry_date = expiry;
        status = valid;
        current_generation_id = generation;
        current_generation_details = details;
      }
      → Change c c'
  fail : c.status ≡ issuing → c' ≡ with_status failed c → Change c c'
  select :
      (expiry : Option ℕ) (generation : Option String) (details : Option GenerationDetails)
      (key : String)
      → c' ≡ record c {
        expiry_date = expiry;
        current_generation_id = generation;
        current_generation_details = details;
        generation_selection_idempotency_key = some key;
      }
      → Change c c'
  retire : (s : Status) → is_retired s ≡ true → c' ≡ with_status s c → Change c c'

-- A write by primary key that no condition on the row guards: the claim of a request that was
-- pending when it was read, and the writes of a renewal.
pub data Overwrite (c c' : Certificate) : Type 0 where
  claimed : c' ≡ with_status issuing c → Overwrite c c'
  begun : c' ≡ with_status renewing c → Overwrite c c'
  ended : (s : Status) → (s ≡ valid) ⊎ (s ≡ failed) → c' ≡ with_status s c → Overwrite c c'
  renewed :
      (expiry : Option ℕ) (generation : Option String) (details : Option GenerationDetails)
      → c' ≡ record c {
        expiry_date = expiry;
        status = valid;
        current_generation_id = generation;
        current_generation_details = details;
      }
      → Overwrite c c'

-- What a row keeps for its lifetime.
pub record Keeps (c c' : Certificate) : Type 0 where
  pub id_kept : c'.id ≡ c.id
  pub name_kept : c'.name ≡ c.name
  pub domains_kept : c'.domains ≡ c.domains
  pub account_kept : c'.acme_account_ref ≡ c.acme_account_ref
  pub method_kept : c'.challenge_method ≡ c.challenge_method
  pub value_kept : c'.dns_record_value ≡ c.dns_record_value
  pub revision_grows : c.revision ≤ c'.revision
  pub key_kept :
      (key : String) → c.release_idempotency_key ≡ some key → c'.release_idempotency_key ≡ some key

pub Keeps-refl : (c : Certificate) → Keeps c c
Keeps-refl c = record {
  id_kept = refl;
  name_kept = refl;
  domains_kept = refl;
  account_kept = refl;
  method_kept = refl;
  value_kept = refl;
  revision_grows = omega arith;
  key_kept = λ key e. e;
}

pub Keeps-trans : {a b c : Certificate} → Keeps a b → Keeps b c → Keeps a c
Keeps-trans h k = record {
  id_kept = cc (h.id_kept, k.id_kept);
  name_kept = cc (h.name_kept, k.name_kept);
  domains_kept = cc (h.domains_kept, k.domains_kept);
  account_kept = cc (h.account_kept, k.account_kept);
  method_kept = cc (h.method_kept, k.method_kept);
  value_kept = cc (h.value_kept, k.value_kept);
  revision_grows = omega arith;
  key_kept = λ key e. k.key_kept key (h.key_kept key e);
}

pub Change-Keeps : (c c' : Certificate) → Change c c' → Keeps c c'
Change-Keeps c c' (ready s e) = ground arith
Change-Keeps c c' (request s e) = ground arith
Change-Keeps c c' (release key n s e) = ground arith
Change-Keeps c c' (claim s e) = ground arith
Change-Keeps c c' (complete x g d s e) = ground arith
Change-Keeps c c' (fail s e) = ground arith
Change-Keeps c c' (select x g d key e) = ground arith
Change-Keeps c c' (retire s d e) = ground arith

pub Overwrite-Keeps : (c c' : Certificate) → Overwrite c c' → Keeps c c'
Overwrite-Keeps c c' (claimed e) = ground arith
Overwrite-Keeps c c' (begun e) = ground arith
Overwrite-Keeps c c' (ended s k e) = ground arith
Overwrite-Keeps c c' (renewed x g d e) = ground arith

-- No change of the lifecycle leads out of the deleted states.
pub Change-is_retired :
    (c c' : Certificate) → Change c c' → is_retired c.status ≡ true → is_retired c'.status ≡ true
Change-is_retired c c' (ready s e) h = ground arith
Change-is_retired c c' (request s e) h = ground arith
Change-is_retired c c' (release key n s e) h = ground arith
Change-is_retired c c' (claim s e) h = ground arith
Change-is_retired c c' (complete x g d s e) h = ground arith
Change-is_retired c c' (fail s e) h = ground arith
Change-is_retired c c' (select x g d key e) h = ground arith
Change-is_retired c c' (retire s d e) h = ground arith
