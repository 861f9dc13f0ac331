-- ===== src/Services/Guarantees/Release.antt =====
-- Releasing a held request (acme_api/services/certificates.py).
use acme_api.Common.{
  ℕ, String, some, ◌≡◌, ◌≢◌, refl, ◌∙◌, true, false, arith, holds_text, holds_text_iff, [], ◌∷◌,
}
use acme_api.Models.Certificate.{Certificate, dns_persist, released, same_status}
use acme_api.Models.World.{World, ok, err, lifecycle}
use acme_api.Models.Audit.{number}
use acme_api.Services.Rows.{get, put, record_event, get-put_self}
use acme_api.Services.Holds.{may_release, release, release_from, release_current, released_row}
use acme_api.Services.Effect.{Survives, survives}
use acme_api.Services.Interleaving.{Reach, Reach-Survives}

release_current_taken :
    (id revision : ℕ) (key other : String) (c : Certificate) (w : World)
    → get id w ≡ some c
    → c.release_idempotency_key ≡ some key
    → key ≢ other
    → release_current id revision other w
      ≡ (err (lifecycle "Certificate revision is stale or cannot be released."), w)
unfolding release_current
release_current_taken id revision key other c w h k ne =
    rw (h, release_current, k) (ground (arith, holds_text_iff (some key) other))

-- After a release under one key, in every history of steps that follows, a release under another
-- key is refused and changes nothing, on whatever DNS Persist row it read that does not
-- hold that other key.
pub release_exclusive :
    (id revision : ℕ) (key other : String) (c seen : Certificate) (w w' : World)
    → get id w ≡ some c
    → c.release_idempotency_key ≡ some key
    → key ≢ other
    → Reach w w'
    → seen.challenge_method ≡ dns_persist
    → holds_text seen.release_idempotency_key other ≡ false
    → release_from (some seen) id revision other w'
      ≡ (err (lifecycle "Certificate revision is stale or cannot be released."), w')
unfolding release_from
release_exclusive id revision key other c seen w w' h k ne r m s =
    rw (m, s) (from_row (Reach-Survives r id c h))
  where
    from_row :
        Survives id c w'
        → release_current id revision other w'
          ≡ (err (lifecycle "Certificate revision is stale or cannot be released."), w')
    from_row (survives x hx kept) =
        release_current_taken id revision key other x w' hx (kept.key_kept key k) ne

-- In every history after a release of a DNS Persist row under a key, the same request under that
-- key, whatever its revision, changes nothing: it returns the row as it then stands, and asks for
-- issuance exactly while the row is still released.
pub release_replay :
    (id revision : ℕ) (key : String) (c : Certificate) (w w' : World)
    → get id w ≡ some c
    → c.challenge_method ≡ dns_persist
    → c.release_idempotency_key ≡ some key
    → Reach w w'
    → (now : Certificate) × (get id w' ≡ some now)
      × (release id revision key w' ≡ (ok (now, same_status now.status released), w'))
unfolding release
release_replay id revision key c w w' h m k r = from_row (Reach-Survives r id c h)
  where
    from_row :
        Survives id c w'
        → (now : Certificate) × (get id w' ≡ some now)
          × (release id revision key w' ≡ (ok (now, same_status now.status released), w'))
    from_row (survives x hx kept) = (
      x,
      hx,
      rw (hx, release_from, kept.method_kept ∙ m, kept.key_kept key k)
          (ground (arith, holds_text_iff (some key) key)),
    )

released_world : ℕ → ℕ → String → World → World
released_world id revision key w =
    record_event id "certificate.released" (("revision", number revision) ∷ [])
      (put id (released_row key) w)

release_accepts :
    (id revision : ℕ) (key : String) (c : Certificate) (w : World)
    → get id w ≡ some c
    → c.challenge_method ≡ dns_persist
    → may_release revision c ≡ true
    → release id revision key w ≡ (ok (released_row key c, true), released_world id revision key w)
unfolding release release_from released_world
release_accepts id revision key c w h m g = rw (h, release_from, release_current) (ground arith)

-- A release of a DNS Persist row that may be released succeeds and starts issuance, and repeating
-- it at once gives the same answer and changes nothing more.
pub release_idempotent :
    (id revision : ℕ) (key : String) (c : Certificate) (w : World)
    → get id w ≡ some c
    → c.challenge_method ≡ dns_persist
    → may_release revision c ≡ true
    → let (answer, w') = release id revision key w in
      (answer ≡ ok (released_row key c, true))
      × (get id w' ≡ some (released_row key c))
      × (release id revision key w' ≡ (ok (released_row key c, true), w'))
unfolding release
release_idempotent id revision key c w h m g =
    let written : get id (released_world id revision key w) ≡ some (released_row key c) =
      unfold released_world in get-put_self (released_row key) (λ x. refl) id c w h in
    rw (release_accepts id revision key c w h m g)
      (refl, written, rw (written, release_from) (ground (arith, holds_text_iff (some key) key)))
