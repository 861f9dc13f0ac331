-- ===== src/Scheduler/Schedule.antt =====
-- acme_api/scheduler.py: when a certificate is renewed, and the calls of the job scheduler.
use acme_api.Common.{
  ℕ, ◌+◌, ◌-◌, ◌*◌, ◌^◌, Option, none, some, List, ◌∷◌, leb, ltb, if◌then◌else◌, ◌≡◌, arith,
}
use acme_api.Models.Certificate.{Certificate}
use acme_api.Models.World.{
  World, Result, ok, err, overflow, Action, JobId, renew, renew_retry, JobCall, add_job, remove_job,
}
use acme_api.Ports.Settings.{RenewalConfig}
use acme_api.Ports.Jobs.{JobStore}

abbrev pub seconds_per_day : ℕ
seconds_per_day = 86400

abbrev pub seconds_per_minute : ℕ
seconds_per_minute = 60

-- `instant - timedelta(days=days)`, which overflows before the first instant of the calendar.
unfoldable pub minus_days : ℕ → ℕ → Result ℕ
minus_days instant days =
    if ltb instant (days * seconds_per_day)
    then err overflow
    else ok (instant - days * seconds_per_day)

-- The later of `now` and the start of the renewal window; nothing for an unissued certificate.
unfoldable pub next_renewal_run_time : Option ℕ → ℕ → ℕ → Result (Option ℕ)
unfolding minus_days
next_renewal_run_time none window_days now = ok none
next_renewal_run_time (some expiry) window_days now = elim (minus_days expiry window_days) [
  | err e ↦ err e
  | ok scheduled ↦ ok (some (if leb scheduled now then now else scheduled))
]

-- `_retry_time`
unfoldable pub retry_time : ℕ → ℕ → ℕ
retry_time now previous_attempts = now + 2 ^ previous_attempts * seconds_per_minute

abbrev pub add_call : JobCall → World → World
add_call call w = record w { job_calls = call ∷ w.job_calls }

module _ (config : RenewalConfig) where
  unfoldable pub schedule_certificate : Certificate → Action (Option ℕ)
  unfolding next_renewal_run_time
  schedule_certificate c w = elim (next_renewal_run_time c.expiry_date config.window_days w.now) [
    | err e ↦ (err e, w)
    | ok none ↦ (ok none, w)
    | ok (some run_at) ↦ (ok (some run_at), add_call (add_job (renew c.id) run_at (some 3600)) w)
  ]

module _ (store : JobStore) where
  -- One round of the loop of `remove_certificate`.
  unfoldable pub remove_if_queued : JobId → List JobCall → List JobCall
  remove_if_queued k calls = if store.has_job calls k then remove_job k ∷ calls else calls

  unfoldable pub remove_certificate : ℕ → World → World
  unfolding remove_if_queued
  remove_certificate id w = record w {
    job_calls = remove_if_queued (renew_retry id) (remove_if_queued (renew id) w.job_calls);
  }

-- Scheduling touches no table.
pub certificates-schedule :
    (config : RenewalConfig) (c : Certificate) (w : World)
    → (schedule_certificate config c w).1.certificates ≡ w.certificates
unfolding schedule_certificate
certificates-schedule config c w = ground arith
