-- ===== src/Schemas.antt =====
-- acme_api/schemas: what a request's body must satisfy before a handler sees it.
pub mod Domains
pub mod Accepted
pub mod Directories
pub mod Bodies
mod Tests
