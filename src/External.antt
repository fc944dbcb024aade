-- ===== src/External.antt =====
-- Code that the crate calls and does not contain, as interfaces: an operation is a field, and what
-- a theorem relies on is a law, kept in a field or in a record of its own.
pub mod Uint
pub mod Traits
pub mod Evm
pub mod StateDb
pub mod Crypto
pub mod BigUint
pub mod Hashes
pub mod Bn
pub mod Host
