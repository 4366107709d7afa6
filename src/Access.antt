-- ===== src/Access.antt =====
-- Who may do what: src/administrative_orchestrator/access_policy.py.
mod Permissions
mod Checks
unfoldable pub use Permissions.*
unfoldable pub use Checks.*
pub mod Table
pub mod Grants
pub mod Matrix
