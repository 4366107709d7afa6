-- ===== src/Persistence.antt =====
-- Cases in the database, and the transactions that write them: src/administrative_orchestrator/
-- persistence.py, fact_history.py and unit_of_work.py.
mod Records
mod Cases
mod Work
unfoldable pub use Records.*
unfoldable pub use Cases.*
unfoldable pub use Work.*
pub mod Copies
pub mod Conflicts
pub mod Acceptance
