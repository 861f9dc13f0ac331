-- ===== src/Ports/Jobs.antt =====
-- The job scheduler (APScheduler), which is not code of the repository: whether a job is queued is
-- a function of the calls made, latest first. The laws are its documented behaviour: adding with
-- `replace_existing` queues the job, removing takes it away, and other jobs are untouched.
use acme_api.Common.{ℕ, Option, List, ◌∷◌, Bool, true, false, ◌≡◌, ◌≢◌}
use acme_api.Models.World.{JobId, JobCall, add_job, remove_job}

pub record JobStore : Type 0 where
  pub has_job : List JobCall → JobId → Bool
  pub has-add :
      (k : JobId) (at : ℕ) (grace : Option ℕ) (calls : List JobCall)
      → has_job (add_job k at grace ∷ calls) k ≡ true
  pub has-add_ne :
      (j k : JobId) (at : ℕ) (grace : Option ℕ) (calls : List JobCall)
      → j ≢ k
      → has_job (add_job k at grace ∷ calls) j ≡ has_job calls j
  pub has-remove : (k : JobId) (calls : List JobCall) → has_job (remove_job k ∷ calls) k ≡ false
  pub has-remove_ne :
      (j k : JobId) (calls : List JobCall)
      → j ≢ k
      → has_job (remove_job k ∷ calls) j ≡ has_job calls j
