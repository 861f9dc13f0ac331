-- ===== src/Scheduler.antt =====
-- acme_api/scheduler.py: automatic renewal.
pub mod Schedule
pub mod Renewal
pub mod Startup
pub mod Timing
pub mod Retries
pub mod Outcomes
pub mod Expiring
mod Tests
