-- ===== src/Cases.antt =====
-- The lifecycle of an administrative case: the pure transitions of
-- src/administrative_orchestrator/service.py, execution_transitions.py and fact_transitions.py.
-- `utcnow()` is the argument `now` of each transition.
mod Transitions
mod Execution
mod Waiting
pub mod Lifecycle
pub mod Invariant
pub mod Graph
pub mod Runs
pub mod Freshness
pub mod Gate
unfoldable pub use Transitions.*
unfoldable pub use Execution.*
unfoldable pub use Waiting.*
