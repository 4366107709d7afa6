-- ===== src/Policy.antt =====
-- The policy evaluators of src/administrative_orchestrator/policy.py.
mod Evaluation
mod Rules
mod Onboarding
mod Offboarding
unfoldable pub use Evaluation.*
unfoldable pub use Rules.*
unfoldable pub use Onboarding.*
unfoldable pub use Offboarding.*
pub mod Soundness
pub mod Departures
