-- ===== src/Engines/GasMarket/Limit.antt =====
-- Properties of `calc_gas_limit`: the clamp that it is, its way to the wanted limit over several
-- blocks, and its result for a tiny parent.
use evm_executor_rs.Base.{ℕ, zero, suc, ◌+◌, ◌-◌, ◌/◌, ◌≤◌, ◌<◌, min, max, ◌≡◌, arith, u64_mod}
use evm_executor_rs.Engines.GasMarket.{calc_gas_limit}

-- For a parent of at least 1024 gas whose raised limit fits in 64 bits, the new limit is the
-- wanted one (at least 5000) held to within parent / 1024 - 1 of the parent's.
pub calc_gas_limit-eq-clamp :
    (parent desired : ℕ)
    → 1024 ≤ parent
    → parent + parent / 1024 ≤ u64_mod
    → calc_gas_limit parent desired
      ≡ max (parent - (parent / 1024 - 1)) (min (parent + (parent / 1024 - 1)) (max 5000 desired))
unfolding calc_gas_limit
calc_gas_limit-eq-clamp parent desired lo hi = ground arith

-- The gas limit after a number of blocks that all want the same limit.
pub limit_after : ℕ → ℕ → ℕ → ℕ
limit_after zero limit desired = limit
limit_after (suc blocks) limit desired = limit_after blocks (calc_gas_limit limit desired) desired

-- From a limit of at least 2048 the wanted limit is reached within as many blocks as the two
-- differ by, and kept, if neither is so large that a step could leave 64 bits.
pub limit_after_reaches :
    (blocks limit desired : ℕ)
    → 2048 ≤ limit
    → limit + limit / 1024 ≤ u64_mod
    → max 5000 desired + max 5000 desired / 1024 ≤ u64_mod
    → limit ≤ max 5000 desired + blocks
    → max 5000 desired ≤ limit + blocks
    → limit_after blocks limit desired ≡ max 5000 desired
unfolding limit_after
limit_after_reaches zero limit desired lo hi fits above below = omega arith
limit_after_reaches (suc blocks) limit desired lo hi fits above below =
    let e = calc_gas_limit-eq-clamp limit desired (omega arith) hi in
    limit_after_reaches blocks (calc_gas_limit limit desired) desired (omega (arith, e))
      (omega (arith, e)) fits (omega (arith, e)) (omega (arith, e))

-- For a parent of 1 to 1023 gas the step underflows: where overflow wraps, the limit falls by 1,
-- whatever limit is wanted.
pub calc_gas_limit_tiny :
    (parent desired : ℕ) → 0 < parent → parent < 1024 → calc_gas_limit parent desired ≡ parent - 1
unfolding calc_gas_limit
calc_gas_limit_tiny parent desired pos tiny = ground arith
