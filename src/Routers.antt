-- ===== src/Routers.antt =====
-- acme_api/routers: what an HTTP request does, from the check of its key to its status code.
pub mod Replies
pub mod Certificates
pub mod Authorized
pub mod Refusals
pub mod RevokeErrors
pub mod Unchanged
pub mod Tasks
pub mod Clients
mod Tests
