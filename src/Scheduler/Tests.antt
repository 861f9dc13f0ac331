-- ===== src/Scheduler/Tests.antt =====
-- The theorems about the scheduler at concrete inputs.
use acme_api.Common.{ℕ, ◌+◌, ◌*◌, ◌≤◌, none, some, [], ◌∷◌, ◌≡◌, ◌⊎◌, refl, arith}
use acme_api.Samples.{renewal_config, valid_row, world, broken_backend, deployer}
use acme_api.Models.Certificate.{revoked, failed}
use acme_api.Models.World.{World, ok, renew, renew_retry, add_job}
use acme_api.Services.Rows.{get, put, with_status}
use acme_api.Scheduler.Schedule.{seconds_per_day, next_renewal_run_time}
use acme_api.Scheduler.Renewal.{attempt_count, attempt_renewal}
use acme_api.Scheduler.Startup.{emit_expiring_if_due}
use acme_api.Scheduler.Timing.{run_time_exact}
use acme_api.Scheduler.Outcomes.{renew_times, retries_run_out}
use acme_api.Scheduler.Expiring.{emit_expiring_once}

run_time_exact_example :
    (t : ℕ) × (next_renewal_run_time (some 63900000000) 30 63800000000 ≡ ok (some t))
    × (63800000000 ≤ t)
    × (63900000000 ≤ t + 30 * seconds_per_day)
    × ((t ≡ 63800000000) ⊎ (t + 30 * seconds_per_day ≡ 63900000000))
run_time_exact_example = run_time_exact 63900000000 30 63800000000 (omega arith)

abbrev queued_world : World
queued_world = record world {
  job_calls =
      add_job (renew 2) 63900000000 (some 3600)
      ∷ add_job (renew_retry 2) 63800000060 none
      ∷ add_job (renew 5) 63900000000 (some 3600)
      ∷ [];
}

retries_run_out_example :
    (get 2 (renew_times renewal_config (broken_backend "down") deployer none none 3 2 world)
      ≡ some valid_row)
    × (get 2 (renew_times renewal_config (broken_backend "down") deployer none none 4 2 world)
        ≡ some (with_status failed valid_row))
unfolding attempt_count attempt_renewal
retries_run_out_example =
    retries_run_out renewal_config (broken_backend "down") deployer none none "down" (λ c. refl) 3
      valid_row world refl refl refl

abbrev revoked_world : World
revoked_world = put 2 (with_status revoked) world

abbrev expiring_world : World
expiring_world = record world { now = 63899000000 }

emit_expiring_once_example :
    let w' = (emit_expiring_if_due renewal_config none valid_row expiring_world).1 in
    (emit_expiring_if_due renewal_config none valid_row w').1 ≡ w'
emit_expiring_once_example = emit_expiring_once renewal_config none valid_row expiring_world
