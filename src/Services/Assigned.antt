-- ===== src/Services/Assigned.antt =====
-- Attributes set on a row that was loaded before (SQLAlchemy's unit of work in
-- acme_api/services/certificates.py and acme_api/scheduler.py): the flush writes a column only if
-- the new value differs from the one that was loaded, so what another task has written meanwhile
-- stays in the others.
use acme_api.Common.{
  ℕ, String, Option, none, some, List, [], ◌∷◌, ◌≡◌, refl, ap, Bool, true, false, ◌&&◌, ◌==◌,
  if◌then◌else◌, number_eq, texts_eq, str_eq, eq_iff, arith, Bool-cases, inl, inr, ==-eq,
}
use acme_api.Models.Certificate.{GenerationDetails}

-- The column afterwards, from the value loaded, the value set, and the value that it has now.
abbrev pub assigned : {A : Type 0} → (A → A → Bool) → A → A → A → A
assigned eq loaded new current = if eq loaded new then current else new

-- Where nothing has been written since, the column gets the new value.
pub assigned-fresh :
    {A : Type 0} (eq : A → A → Bool) (a b : A) → (eq a b ≡ true → a ≡ b) → assigned eq a b a ≡ b
assigned-fresh eq a b sound = elim (Bool-cases (eq a b)) [
  | inl g ↦ rw g (sound g)
  | inr g ↦ rw g refl
]

abbrev pub text_eq : Option String → Option String → Bool
text_eq none none = true
text_eq (some a) (some b) = str_eq a b
text_eq _ _ = false

abbrev same_fields : GenerationDetails → GenerationDetails → Bool
same_fields a b =
    (str_eq a.generation_id b.generation_id
      && (str_eq a.cert_path b.cert_path
          && (str_eq a.chain_path b.chain_path
              && (str_eq a.fullchain_path b.fullchain_path
                  && str_eq a.privkey_path b.privkey_path))))
    && (str_eq a.fingerprint_sha256 b.fingerprint_sha256
        && (text_eq a.serial b.serial
            && (texts_eq a.subjects b.subjects && a.not_after == b.not_after)))

abbrev pub details_eq : Option GenerationDetails → Option GenerationDetails → Bool
details_eq none none = true
details_eq (some a) (some b) = same_fields a b
details_eq _ _ = false

pub number_eq_sound : (a b : Option ℕ) → number_eq a b ≡ true → a ≡ b
number_eq_sound none none h = refl
number_eq_sound none (some b) h = absurd (ground arith)
number_eq_sound (some a) none h = absurd (ground arith)
number_eq_sound (some a) (some b) h = ap some (==-eq a b h)

pub text_eq_sound : (a b : Option String) → text_eq a b ≡ true → a ≡ b
text_eq_sound none none h = refl
text_eq_sound none (some b) h = absurd (ground arith)
text_eq_sound (some a) none h = absurd (ground arith)
text_eq_sound (some a) (some b) h = ap some ((eq_iff a b).0 h)

texts_eq_sound : (a b : List String) → texts_eq a b ≡ true → a ≡ b
texts_eq_sound [] [] h = refl
texts_eq_sound [] (y ∷ ys) h = absurd (ground arith)
texts_eq_sound (x ∷ xs) [] h = absurd (ground arith)
texts_eq_sound (x ∷ xs) (y ∷ ys) h = ground (arith, eq_iff x y, texts_eq_sound xs ys)

same_fields_sound : (a b : GenerationDetails) → same_fields a b ≡ true → a ≡ b
same_fields_sound a b h = ground (
  arith,
  eq_iff a.generation_id b.generation_id,
  eq_iff a.cert_path b.cert_path,
  eq_iff a.chain_path b.chain_path,
  eq_iff a.fullchain_path b.fullchain_path,
  eq_iff a.privkey_path b.privkey_path,
  eq_iff a.fingerprint_sha256 b.fingerprint_sha256,
  text_eq_sound a.serial b.serial,
  texts_eq_sound a.subjects b.subjects,
)

pub details_eq_sound : (a b : Option GenerationDetails) → details_eq a b ≡ true → a ≡ b
details_eq_sound none none h = refl
details_eq_sound none (some b) h = absurd (ground arith)
details_eq_sound (some a) none h = absurd (ground arith)
details_eq_sound (some a) (some b) h = ap some (same_fields_sound a b h)
