-- ===== src/Precompile.antt =====
-- src/precompile.rs: the precompiled contracts, and the sets of them.
pub mod Contract
pub mod Simple
pub mod Blake2f
pub mod Blake2fContract
pub mod ModExp
pub mod Ecrecover
pub mod Curve
pub mod Sets
