-- ===== src/Scheduler/Timing.antt =====
-- When renewal jobs run (acme_api/scheduler.py).
use acme_api.Common.{ℕ, ◌+◌, ◌*◌, ◌≤◌, some, ◌≡◌, ◌⊎◌, refl, ◌-◌, inl, inr, Bool-cases, leb, arith}
use acme_api.Models.World.{ok}
use acme_api.Scheduler.Schedule.{seconds_per_day, next_renewal_run_time}

-- Where the renewal window does not reach back beyond the calendar, the run time is the later of
-- now and the opening of the window.
pub run_time_exact :
    (expiry window_days now : ℕ)
    → window_days * seconds_per_day ≤ expiry
    → (t : ℕ) × (next_renewal_run_time (some expiry) window_days now ≡ ok (some t))
      × (now ≤ t)
      × (expiry ≤ t + window_days * seconds_per_day)
      × ((t ≡ now) ⊎ (t + window_days * seconds_per_day ≡ expiry))
unfolding next_renewal_run_time
run_time_exact expiry window_days now h = elim (Bool-cases (leb opens now)) [
  | inl g ↦ (now, ground arith, omega arith, ground arith, inl refl)
  | inr g ↦ (opens, ground arith, ground arith, omega arith, inr (omega arith))
]
  where
    opens : ℕ
    opens = expiry - window_days * seconds_per_day
