-- ===== src/TxExecutor.antt =====
-- `TxExecutor` of src/tx_executor.rs: one transaction against a database.
pub mod Machine
pub mod Checks
pub mod Changes
pub mod Execute
pub mod Laws
