-- ===== src/Models.antt =====
-- The rows of the database (acme_api/models) and the state that the service tasks share. Instants
-- are seconds since the first instant of Python's calendar, identifiers (UUIDs) are numbers.
pub mod Certificate
pub mod Audit
pub mod Revocation
pub mod World
