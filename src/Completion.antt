-- ===== src/Completion.antt =====
-- Completion of a case against its obligations
-- (src/administrative_orchestrator/completion.py, with the records of obligations.py).
mod Obligations
mod Requirements
mod Assessment
unfoldable pub use Obligations.*
unfoldable pub use Requirements.*
unfoldable pub use Assessment.*
pub mod Latest
pub mod Contract
pub mod Clearance
pub mod Discharge
