-- ===== src/Deployer/Tolerance.antt =====
-- Rules of calls that a deployment of acme_api/deployer.py repeats or tolerates.
use acme_api.Common.{ℕ, Option, none, some, Bool, true, false, ◌||◌, not, ◌==◌}
use acme_api.Models.World.{Result, ok, err, os_error}
use acme_api.Models.World
use acme_api.Deployer.Disk.{Disk, Tree, Access, Io, call}
use acme_api.Deployer.Directories.{Shared, stat, set_access, when, configure_consumer_directories}
use acme_api.Deployer.Publication.{tolerate_os_error, tolerated}
use acme_api.Deployer.Triples.{Triple, Keeps, Post, call-Keeps, bind-Keeps, pure-Keeps}

Post-tolerated :
    {A : Type 0} (S : Tree → Type 0) (r : Result A × Disk)
    → Post (λ _ t. S t) S r
    → Post (λ _ t. S t) S (tolerated r.0, r.1)
Post-tolerated S (ok a, d) h = h
Post-tolerated S (err (os_error m), d) h = h
Post-tolerated S (err (World.lifecycle m), d) h = h
Post-tolerated S (err (World.conflict m), d) h = h
Post-tolerated S (err (World.unavailable m), d) h = h
Post-tolerated S (err (World.not_found m), d) h = h
Post-tolerated S (err (World.not_renewable m), d) h = h
Post-tolerated S (err (World.deployment m), d) h = h
Post-tolerated S (err (World.integrity m), d) h = h
Post-tolerated S (err (World.value_error m), d) h = h
Post-tolerated S (err World.overflow, d) h = h
Post-tolerated S (err World.index_error, d) h = h

pub tolerate_rule :
    {A : Type 0} {P : Tree → Type 0} (S : Tree → Type 0) (m : Io A)
    → Triple P m (λ _ t. S t) S
    → Triple P (tolerate_os_error m) (λ _ t. S t) S
unfolding tolerate_os_error
tolerate_rule S m h = record { apply = λ d p. Post-tolerated S (m d) (h.apply d p) }

-- The access of a directory is configured without a change of anything else.
pub configure-Keeps :
    {P : Tree → Type 0} (directory : Shared) (group : Option ℕ)
    → ((f : Access → Access) (t : Tree) → P t → P (set_access f directory t))
    → Keeps P (configure_consumer_directories directory group)
unfolding configure_consumer_directories stat
configure-Keeps directory none h = pure-Keeps tt
configure-Keeps {P} directory (some group) h =
    bind-Keeps _ _ (call-Keeps (stat directory) λ t p. p) λ status.
      bind-Keeps _ _ (when_keeps (not (status.group == group)) _)
        λ _. when_keeps (not (status.group == group) || status.is_own) _
  where
    when_keeps :
        (b : Bool) (f : Access → Access)
        → Keeps P (when b (call λ t. (ok tt, set_access f directory t)))
    when_keeps true f = call-Keeps _ (h f)
    when_keeps false f = pure-Keeps tt
