-- ===== src/Services/Guarantees.antt =====
-- What the service guarantees of acme_api/services/certificates.py over every history of steps.
pub mod Release
pub mod Discard
pub mod Creation
pub mod Selecting
pub mod Revoking
pub mod Settling
