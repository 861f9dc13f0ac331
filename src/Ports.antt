-- ===== src/Ports.antt =====
-- The interfaces through which the certificate service meets the parts around it: the settings,
-- the ACME backend, the deployer, the webhook dispatcher and the job scheduler.
pub mod Settings
pub mod Startup
pub mod Backend
pub mod Deployer
pub mod Dispatcher
pub mod Jobs
