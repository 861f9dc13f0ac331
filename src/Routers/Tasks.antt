-- ===== src/Routers/Tasks.antt =====
-- The tasks that acme_api/routers/certificates.py leaves to run after the response, and a request
-- followed by its task.
use acme_api.Common.{ℕ, Option, none, some, [], ◌∷◌}
use acme_api.Models.Certificate.{Certificate}
use acme_api.Models.World.{World, ok, Action}
use acme_api.Ports.Settings.{RenewalConfig}
use acme_api.Models.Audit.{text, texts}
use acme_api.Ports.Backend.{Backend}
use acme_api.Ports.Dispatcher.{Dispatcher, dispatch_webhook}
use acme_api.Scheduler.Renewal.{renew_certificate}
use acme_api.Services.Rows.{record_event}
use acme_api.Services.Issuance.{issue_certificate, issue_released, issue_dns_persist}
use acme_api.Routers.Replies.{
  Task, issue_task, issue_dns_persist_task, issue_released_task, renew_task,
}
use acme_api.Routers.Certificates.{App}

-- The world with a new row, its event and its webhook.
abbrev inserted : Option Dispatcher → Certificate → World → World
inserted hooks row w = dispatch_webhook hooks "certificate.created" row (
    record_event row.id "certificate.created"
      (("name", text row.name) ∷ ("domains", texts row.domains) ∷ [])
      (record w { certificates = row ∷ w.certificates }))

module _ (app : App) where
  renew_if : Option RenewalConfig → ℕ → Action (Unit {0})
  renew_if none id w = (ok tt, w)
  renew_if (some config) id w =
      renew_certificate config app.backend app.deployer app.renewal_deployment app.hooks id w

  -- The method that a task calls.
  unfoldable pub run_task : Task → Action (Unit {0})
  unfolding renew_if renew_certificate issue_certificate issue_dns_persist issue_released
  run_task (issue_task id) w =
      issue_certificate app.settings app.backend app.deployer app.hooks app.scheduler id w
  run_task (issue_dns_persist_task id) w =
      issue_dns_persist app.settings app.backend app.deployer app.hooks app.scheduler id w
  run_task (issue_released_task id) w =
      issue_released app.settings app.backend app.deployer app.hooks app.scheduler id w
  run_task (renew_task id) w = renew_if app.scheduler id w
