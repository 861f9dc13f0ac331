-- ===== src/Webhooks.antt =====
-- acme_api/webhooks.py and acme_api/models/webhook.py: telling subscribers what happens to a
-- certificate.
pub mod Target
pub mod Delivery
pub mod Retrying
pub mod Dispatching
mod Tests
