-- ===== src/Auth.antt =====
-- acme_api/auth, acme_api/models/api_key.py and acme_api/admin_clients.py: the clients of the API,
-- their keys, and what a role allows.
pub mod Keys
pub mod Access
pub mod Clients
pub mod Soundness
pub mod Revoked
pub mod Credentials
mod Tests
