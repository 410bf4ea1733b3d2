-- ===== src/Protected.antt =====
-- src/trustplane_auth/protected_client.py: requests to a protected site, signed with a local key.
pub mod Target
pub mod Client
pub mod Kept
pub mod Sent
pub mod Prepared
