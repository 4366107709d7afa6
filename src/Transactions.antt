-- ===== src/Transactions.antt =====
-- Evidence links and qualification assessments of financial transactions:
-- src/administrative_orchestrator/transaction_repository.py, with its records of financial.py.
mod Records
mod Store
unfoldable pub use Records.*
unfoldable pub use Store.*
pub mod Chains
mod Links
pub mod Append
pub mod Currency
pub mod Histories
