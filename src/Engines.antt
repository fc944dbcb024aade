-- ===== src/Engines.antt =====
-- The engines of src/engines.rs.
pub mod GasMarket
pub mod Ethereum
