-- ===== src/Store.antt =====
-- packages/store: the SQLite tables and what the services do to them.
pub mod Agents
pub mod Grants
pub mod Groups
pub mod Keys
pub mod Verify
pub mod Entitlement
pub mod Teardown
pub mod Messages
pub mod Nonces
pub mod Sources
pub mod Pairing
