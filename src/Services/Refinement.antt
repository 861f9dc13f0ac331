-- ===== src/Services/Refinement.antt =====
-- The methods of the service refine the state machine of `Change`: each atomic step, on whatever
-- stale row it acts, changes at most one row, and only as `Change` says.
pub mod Holds
pub mod Issuance
pub mod Retirement
pub mod Requests
pub mod Selection
pub mod Revocations
pub mod Renewal
