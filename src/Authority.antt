-- ===== src/Authority.antt =====
-- src/administrative_orchestrator/authority.py.
mod Records
mod Registry
mod Selection
mod Decisions
unfoldable pub use Records.*
unfoldable pub use Registry.*
unfoldable pub use Selection.*
unfoldable pub use Decisions.*
pub mod Search
pub mod Roles
pub mod Approval
pub mod Holding
