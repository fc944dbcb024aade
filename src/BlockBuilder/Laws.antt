-- ===== src/BlockBuilder/Laws.antt =====
-- The properties of the block builder.
pub mod Interface
pub mod Gas
pub mod Truncate
pub mod Undo
pub mod Prefetch
