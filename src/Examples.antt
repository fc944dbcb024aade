-- ===== src/Examples.antt =====
-- Concrete instances of what the development takes as parameters, tests by evaluation, and each
-- theorem with hypotheses at an input that meets them.
mod Proofs
mod Fetching
mod Blocks
mod Words
mod Crates
mod Precompiles
mod PrecompileRuns
mod Powers
mod World
mod GasMarket
mod Execution
mod Building
