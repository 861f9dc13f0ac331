-- ===== src/Scheduler/Startup.antt =====
-- `start` and `rebuild_jobs` of acme_api/scheduler.py: the jobs of all valid certificates, and one
-- expiry event for each certificate inside its renewal window.
use acme_api.Common.{
  ℕ, Option, none, some, List, [], ◌∷◌, Bool, false, ◌&&◌, ◌==◌, str_eq, ltb, any, length,
  if◌then◌else◌,
}
use acme_api.Models.Certificate.{Certificate, valid, same_status}
use acme_api.Models.Audit.{Event, texts, number}
use acme_api.Models.World.{World, Result, ok, err, Action, ◌>>=◌, ◌>>◌, pure, forget}
use acme_api.Ports.Settings.{RenewalConfig}
use acme_api.Ports.Dispatcher.{Dispatcher, dispatch_webhook}
use acme_api.Scheduler.Schedule.{schedule_certificate, minus_days}
use acme_api.Services.Rows.{record_event}

abbrev same_id : Option ℕ → ℕ → Bool
same_id none id = false
same_id (some i) id = i == id

abbrev pub is_expiring_event : ℕ → Event → Bool
is_expiring_event id e = same_id e.certificate_id id && str_eq e.event_type "certificate.expiring"

-- `_expiring_event_exists`
unfoldable pub expiring_event_exists : ℕ → World → Bool
expiring_event_exists id w = any (is_expiring_event id) w.events

module _ (config : RenewalConfig) (hooks : Option Dispatcher) where
  unfoldable pub emit_if_missing : Certificate → ℕ → World → World
  unfolding expiring_event_exists
  emit_if_missing c expiry w =
      if expiring_event_exists c.id w
      then w
      else dispatch_webhook hooks "certificate.expiring" c (
          record_event c.id "certificate.expiring"
            (("domains", texts c.domains) ∷ ("expires_at", number expiry) ∷ []) w)

  unfoldable pub emit_in_window : Certificate → ℕ → Result ℕ → Action (Unit {0})
  emit_in_window c expiry (err e) w = (err e, w)
  emit_in_window c expiry (ok opens) w =
      (ok tt, if ltb w.now opens then w else emit_if_missing c expiry w)

  unfoldable pub emit_for : Certificate → Option ℕ → Action (Unit {0})
  unfolding minus_days
  emit_for c none w = (ok tt, w)
  emit_for c (some expiry) w = emit_in_window c expiry (minus_days expiry config.window_days) w

  -- `_emit_expiring_if_due`
  unfoldable pub emit_expiring_if_due : Certificate → Action (Unit {0})
  unfolding emit_for
  emit_expiring_if_due c = emit_for c c.expiry_date

  emit_all : List Certificate → Action (Unit {0})
  unfolding emit_expiring_if_due
  emit_all [] w = (ok tt, w)
  emit_all (c ∷ cs) w = (emit_expiring_if_due c >> emit_all cs) w

  schedule_all : List Certificate → Action (Unit {0})
  unfolding schedule_certificate
  schedule_all [] w = (ok tt, w)
  schedule_all (c ∷ cs) w = (forget (schedule_certificate config c) >> schedule_all cs) w

  abbrev select_valid : List Certificate → List Certificate
  select_valid [] = []
  select_valid (c ∷ cs) =
      if same_status c.status valid then c ∷ select_valid cs else select_valid cs

  -- The result is the number of certificates.
  unfoldable pub rebuild_jobs : Action ℕ
  unfolding emit_all schedule_all
  rebuild_jobs w =
      let certificates = select_valid w.certificates in
      (emit_all certificates >> schedule_all certificates >>= λ _. pure (length certificates)) w

  -- `start`, apart from starting APScheduler itself.
  unfoldable pub start : Action (Unit {0})
  unfolding rebuild_jobs
  start w = if config.enabled then forget rebuild_jobs w else (ok tt, w)
