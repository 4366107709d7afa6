-- ===== src/Commitments.antt =====
-- Commitments of people: commitment_models.py, commitment_repository.py, commitment_lifecycle.py and
-- commitment_cancellation.py of src/administrative_orchestrator.
mod Models
mod Repository
mod Lifecycle
mod Cancellation
unfoldable pub use Models.*
unfoldable pub use Repository.*
unfoldable pub use Lifecycle.*
unfoldable pub use Cancellation.*
mod Effects
pub mod Fulfillment
