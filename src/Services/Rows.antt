-- ===== src/Services/Rows.antt =====
-- Reading and writing certificate rows: `session.get`, an update by primary key, and the tests on
-- the status column that the SQL of acme_api/services/certificates.py makes.
use acme_api.Common.{ℕ, String, Option, some, List, ◌≡◌, ap, sym, if◌then◌else◌}
use acme_api.Common.Table.{find, update, find-update_self}
use acme_api.Models.Certificate.{Status, Certificate, same_status}
use acme_api.Models.Audit.{Value}
use acme_api.Models.World.{World, add_event}

abbrev pub certificate_id : Certificate → ℕ
certificate_id c = c.id

-- `session.get(Certificate, id)`
abbrev pub get : ℕ → World → Option Certificate
get id w = find certificate_id id w.certificates

abbrev pub put : ℕ → (Certificate → Certificate) → World → World
put id f w = record w { certificates = update certificate_id id f w.certificates }

-- `_record_event`
abbrev pub record_event : ℕ → String → List (String × Value) → World → World
record_event id type details =
    add_event (record { event_type = type; certificate_id = some id; details = details })

abbrev pub with_status : Status → Certificate → Certificate
with_status s c = record c { status = s }

-- `certificate.status = s` on a row that was read with the status `seen`: SQLAlchemy writes the
-- column only if that changes it.
abbrev pub assign_status : ℕ → Status → Status → World → World
assign_status id seen s w = if same_status seen s then w else put id (with_status s) w

-- The row that an update by primary key has written.
pub get-put_self :
    (f : Certificate → Certificate)
    → ((c : Certificate) → (f c).id ≡ c.id)
    → (id : ℕ) (c : Certificate) (w : World) → get id w ≡ some c
    → get id (put id f w) ≡ some (f c)
get-put_self f keeps id c w h = find-update_self certificate_id f keeps id w.certificates c h

pub with_status_same : (s : Status) (c : Certificate) → c.status ≡ s → with_status s c ≡ c
with_status_same s c e = ap (λ t. with_status t c) (sym e)
