-- ===== src/Services.antt =====
-- acme_api/services: the certificate lifecycle. A method that reads a row and later writes it is
-- split at that point: `..._from` takes the row as it was read, which may be stale by then, and the
-- method itself reads and goes on at once.
pub mod Accounts
pub mod Configured
pub mod Rows
pub mod Assigned
pub mod Requests
pub mod Holds
pub mod Generations
pub mod Issuance
pub mod Retirement
pub mod Change
pub mod Effect
pub mod Refinement
pub mod Interleaving
pub mod Guarantees
pub mod Races
pub mod Stranded
pub mod Selection
pub mod Revocations
mod Tests
mod RevocationTests
mod ConfiguredTests
pub mod Unique
