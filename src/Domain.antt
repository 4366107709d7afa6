-- ===== src/Domain.antt =====
-- The records and enumerations of src/administrative_orchestrator/domain.py, with the checks that
-- their pydantic validators make. Each validator is a function that returns the record or raises.
mod Kinds
mod Facts
mod Authority
mod Case
mod Effects
pub use Kinds.*
unfoldable pub use Facts.*
unfoldable pub use Authority.*
unfoldable pub use Case.*
unfoldable pub use Effects.*
