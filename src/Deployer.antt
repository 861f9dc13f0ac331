-- ===== src/Deployer.antt =====
-- acme_api/deployer.py: names, sources, generations on a disk whose calls may fail, and the
-- cleanup.
pub mod Names
pub mod Distinct
mod Tests
mod DiskTests
pub mod Retention
pub mod Kept
pub mod Disk
pub mod Artifacts
pub mod Directories
pub mod Selecting
pub mod Migration
pub mod Removal
pub mod Publication
pub mod Triples
pub mod Staging
pub mod Shown
pub mod Written
pub mod Switch
pub mod Cleaning
pub mod Tolerance
pub mod Atomic
pub mod Sources
pub mod Deployment
pub mod Guarantees
pub mod Pinning
pub mod Accepted
