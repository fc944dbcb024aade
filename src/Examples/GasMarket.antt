-- ===== src/Examples/GasMarket.antt =====
-- The gas market at concrete blocks.
use evm_executor_rs.Base.{◌+◌, ◌-◌, ◌/◌, ◌≤◌, ◌<◌, min, max, ◌≡◌, ◌↔◌, refl, none, some, arith}
use evm_executor_rs.Engines.GasMarket.{calc_gas_limit, calc_base_fee}
use evm_executor_rs.Engines.GasMarket.Limit.{
  limit_after, calc_gas_limit-eq-clamp, limit_after_reaches, calc_gas_limit_tiny,
}
use evm_executor_rs.Engines.GasMarket.BaseFee.{
  next_base_fee, calc_base_fee-eq-next, calc_base_fee_bounds, calc_base_fee_panics,
}
use evm_executor_rs.Examples.World.{checked}

limit_test : calc_gas_limit 30000000 40000000 ≡ 30029295
unfolding calc_gas_limit
limit_test = refl

fee_test : calc_base_fee checked 30000000 30000000 1000000000 ≡ some 1125000000
unfolding calc_base_fee
fee_test = refl

calc_gas_limit-eq-clamp_example :
    calc_gas_limit 30000000 40000000
    ≡ max
        (30000000 - (30000000 / 1024 - 1))
        (min (30000000 + (30000000 / 1024 - 1)) (max 5000 40000000))
calc_gas_limit-eq-clamp_example =
    calc_gas_limit-eq-clamp 30000000 40000000 (omega arith) (omega arith)

limit_after_reaches_example : limit_after 1000 4500 100 ≡ max 5000 100
limit_after_reaches_example =
    limit_after_reaches 1000 4500 100 (omega arith) (omega arith) (omega arith) (omega arith)
      (omega arith)

calc_gas_limit_tiny_example : calc_gas_limit 1000 8000 ≡ 1000 - 1
calc_gas_limit_tiny_example = calc_gas_limit_tiny 1000 8000 (omega arith) (omega arith)

calc_base_fee-eq-next_example :
    calc_base_fee checked 30000000 20000000 1000000000
    ≡ some (next_base_fee 30000000 20000000 1000000000)
calc_base_fee-eq-next_example =
    calc_base_fee-eq-next checked 30000000 20000000 1000000000 (omega arith) (omega arith)
      (omega arith)

calc_base_fee_bounds_example :
    ((30000000 / 2 < 30000000) ↔ (1000000000 < 1125000000))
    × (1125000000 ≤ 1000000000 + max 1 (1000000000 / 8))
    × (1000000000 ≤ 1125000000 + 1000000000 / 8)
calc_base_fee_bounds_example =
    calc_base_fee_bounds checked 30000000 30000000 1000000000 (omega arith) fee_test

calc_base_fee_panics_example : calc_base_fee checked 1 1 7 ≡ none
calc_base_fee_panics_example = calc_base_fee_panics checked 1 1 7 (omega arith) (omega arith)
