-- ===== src/AuthorityLifecycle.antt =====
-- src/administrative_orchestrator/authority_lifecycle.py.
mod Events
mod Operations
unfoldable pub use Events.*
unfoldable pub use Operations.*
pub mod Calls
pub mod Windows
pub mod Directories
pub mod Shrinking
pub mod Emptied
pub mod Revocation
pub mod Bindings
pub mod Identities
