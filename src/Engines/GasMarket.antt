-- ===== src/Engines/GasMarket.antt =====
-- `Ethereum::calc_gas_limit` and `Ethereum::calc_base_fee` of src/engines.rs. The u64 arithmetic
-- of the first wraps; the U256 arithmetic of the second is that of `External.Uint`, and `none` is
-- a panic.
pub mod Limit
pub mod BaseFee
use evm_executor_rs.Base.{
  ℕ, ◌/◌, Option, none, some, max, ltb, ◌==◌, if◌then◌else◌, add_u64, sub_u64,
}
use evm_executor_rs.External.Uint.{Uint}

abbrev pub gas_limit_bound_divisor : ℕ
gas_limit_bound_divisor = 1024

abbrev pub min_gas_limit : ℕ
min_gas_limit = 5000

unfoldable pub calc_gas_limit : ℕ → ℕ → ℕ
calc_gas_limit parent_gas_limit desired =
    let delta = sub_u64 (parent_gas_limit / gas_limit_bound_divisor) 1 in
    let desired_limit = if ltb desired min_gas_limit then min_gas_limit else desired in
    if ltb parent_gas_limit desired_limit
    then (let limit = add_u64 parent_gas_limit delta in
        if ltb desired_limit limit then desired_limit else limit)
    else if ltb desired_limit parent_gas_limit
    then (let limit = sub_u64 parent_gas_limit delta in
        if ltb limit desired_limit then desired_limit else limit)
    else parent_gas_limit

abbrev pub elasticity_multiplier : ℕ
elasticity_multiplier = 2

abbrev pub base_fee_change_denominator : ℕ
base_fee_change_denominator = 8

-- `max` and the comparisons are those of the numbers.
infixl 5 ◌>>=◌
abbrev ◌>>=◌ : {A B : Type 0} → Option A → (A → Option B) → Option B
none >>= f = none
some a >>= f = f a

module _ (u : Uint) where
  unfoldable pub calc_base_fee : ℕ → ℕ → ℕ → Option ℕ
  calc_base_fee gas_limit gas_used base_fee =
      let parent_gas_target = gas_limit / elasticity_multiplier in
      if gas_used == parent_gas_target
      then some base_fee
      else if ltb parent_gas_target gas_used
      then (do
        num ← u.sub gas_used parent_gas_target
        num ← u.mul num base_fee
        num ← u.div num parent_gas_target
        num ← u.div num base_fee_change_denominator
        u.add (max num 1) base_fee)
      else (do
        num ← u.sub parent_gas_target gas_used
        num ← u.mul num base_fee
        num ← u.div num parent_gas_target
        num ← u.div num base_fee_change_denominator
        fee ← u.sub base_fee num
        some (max fee 0))
