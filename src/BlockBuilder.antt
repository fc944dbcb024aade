-- ===== src/BlockBuilder.antt =====
-- `BlockBuilder` of src/block_builder.rs, and the trait `Engine` that it is generic over.
pub mod Engine
pub mod Builder
pub mod Finish
pub mod Prefetch
pub mod Laws
