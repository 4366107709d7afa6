-- ===== src/Messaging.antt =====
-- The transactional outbox and its relay: src/administrative_orchestrator/messaging.py.
mod Rows
mod Claims
mod Relay
unfoldable pub use Rows.*
unfoldable pub use Claims.*
unfoldable pub use Relay.*
pub mod Retry
pub mod Steps
pub mod Leases
pub mod Exclusion
pub mod Redelivery
