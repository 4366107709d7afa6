-- ===== src/PolicyPlane.antt =====
-- The policy plane: versions of a policy, their lifecycle and the version in force
-- (src/administrative_orchestrator/policy_plane.py).
mod Versions
mod Store
mod Commands
unfoldable pub use Versions.*
unfoldable pub use Store.*
unfoldable pub use Commands.*
pub mod Separation
pub mod Writes
pub mod Listing
pub mod Resolution
pub mod Immutability
pub mod Activation
