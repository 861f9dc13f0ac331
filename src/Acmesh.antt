-- ===== src/Acmesh.antt =====
-- acme_api/backend/acmesh_backend.py, as far as it does not run the process: the arguments it
-- builds, and the meaning of an exit.
pub mod Arguments
pub mod Environment
pub mod Protected
pub mod Domains
pub mod Exits
pub mod Retryable
mod Tests
