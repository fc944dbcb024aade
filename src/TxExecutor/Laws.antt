-- ===== src/TxExecutor/Laws.antt =====
-- What the executor does to the ledger behind the database.
pub mod Effects
pub mod Changes
pub mod Fees
pub mod Needs
pub mod Admission
pub mod Gas
pub mod Refusals
pub mod Unchanged
pub mod Accounts
pub mod Whole
