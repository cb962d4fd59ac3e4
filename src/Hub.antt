-- ===== src/Hub.antt =====
-- packages/hub: the parts of the hub that stand around its handlers.
pub mod RateLimit
pub mod Ownership
pub mod Refusals
pub mod Presence
pub mod Dormancy
pub mod RawParams
pub mod Observed
pub mod Signature
pub mod Send
pub mod Connect
pub mod Receive
pub mod Heartbeat
