-- ===== src/Scheduler/Retries.antt =====
-- The retry policy of acme_api/scheduler.py.
use acme_api.Common.{
  ℕ, suc, ◌+◌, ◌<◌, String, Option, none, some, ◌≡◌, refl, Bool, true, false, arith, ltb, ◌∷◌, ◌^◌,
  ◌*◌, count-cons_true,
}
use acme_api.Models.Certificate.{Certificate, Status, valid, failed}
use acme_api.Models.World.{World, renew_retry, add_job}
use acme_api.Ports.Settings.{RenewalConfig}
use acme_api.Ports.Dispatcher.{
  Dispatcher, certificates-dispatch, attempts-dispatch, job_calls-dispatch,
}
use acme_api.Scheduler.Schedule.{retry_time}
use acme_api.Scheduler.Renewal.{
  attempt_count, record_failure, after_failure, retries, is_failed_attempt, failed_attempt,
}
use acme_api.Services.Rows.{get, with_status, get-put_self}

module _ (hooks : Option Dispatcher) (c : Certificate) (message : String) (transient : Bool)
    (at : Option ℕ) (s : Status) (w : World) where
  attempt_count-after_failure :
      attempt_count c.id (after_failure hooks c message transient at s w)
      ≡ suc (attempt_count c.id w)
  unfolding attempt_count after_failure
  attempt_count-after_failure =
      rw (attempts-dispatch hooks "certificate.failed" (with_status s c)) (
        count-cons_true (is_failed_attempt c.id) (failed_attempt c.id message transient at)
          w.attempts (ground arith))

  get-after_failure :
      (x : Certificate)
      → get c.id w ≡ some x
      → get c.id (after_failure hooks c message transient at s w) ≡ some (with_status s x)
  unfolding after_failure
  get-after_failure x h =
      rw (certificates-dispatch hooks "certificate.failed" (with_status s c))
        (get-put_self (with_status s) (λ y. refl) c.id x w h)

  job_calls-after_failure : (after_failure hooks c message transient at s w).job_calls ≡ w.job_calls
  unfolding after_failure
  job_calls-after_failure = rw (job_calls-dispatch hooks "certificate.failed" (with_status s c))

module _ (config : RenewalConfig) (hooks : Option Dispatcher) (c x : Certificate) (message : String)
    (w : World) (h : get c.id w ≡ some x) where
  -- A transient failure with attempts left adds one failed attempt, puts the row back to valid,
  -- and adds a retry job after two to the power of the earlier failures, in minutes.
  pub retry_scheduled :
      attempt_count c.id w < config.max_retries
      → let w' = record_failure config hooks c message true w in
        (attempt_count c.id w' ≡ suc (attempt_count c.id w))
        × (get c.id w' ≡ some (with_status valid x))
        × (w'.job_calls
            ≡ add_job (renew_retry c.id) (w.now + 2 ^ attempt_count c.id w * 60) none ∷ w.job_calls)
  unfolding record_failure retry_time attempt_count
  retry_scheduled lt =
      let g : ltb (attempt_count c.id w) config.max_retries ≡ true = ground arith in
      rw g (
        attempt_count-after_failure hooks c message true _ valid _,
        get-after_failure hooks c message true _ valid _ x h,
        job_calls-after_failure hooks c message true _ valid _,
      )

  -- Any other failure adds one failed attempt, fails the row, and adds no job.
  pub retry_exhausted :
      (transient : Bool)
      → retries config transient (attempt_count c.id w) ≡ false
      → let w' = record_failure config hooks c message transient w in
        (attempt_count c.id w' ≡ suc (attempt_count c.id w))
        × (get c.id w' ≡ some (with_status failed x))
        × (w'.job_calls ≡ w.job_calls)
  unfolding record_failure
  retry_exhausted transient g = rw g (
    attempt_count-after_failure hooks c message transient none failed w,
    get-after_failure hooks c message transient none failed w x h,
    job_calls-after_failure hooks c message transient none failed w,
  )
