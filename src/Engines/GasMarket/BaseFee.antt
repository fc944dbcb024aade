-- ===== src/Engines/GasMarket/BaseFee.antt =====
-- Properties of `calc_base_fee`: the rule of EIP-1559, and the bounds on one step.
use evm_executor_rs.Base.{
  ℕ, ◌+◌, ◌-◌, ◌*◌, ◌/◌, ◌≤◌, ◌<◌, max, ◌≡◌, ◌↔◌, Option, none, some, arith, ltb, if◌then◌else◌,
}
use native.Mathlib.Nat.{div-le_of_le-mul, div-le_self}
use evm_executor_rs.External.Uint.{Uint, u256_mod}
use evm_executor_rs.Engines.GasMarket.{calc_base_fee, ◌>>=◌}

-- The change of the base fee for a difference of gas from the target.
abbrev pub fee_change : ℕ → ℕ → ℕ → ℕ
fee_change diff target base_fee = diff * base_fee / target / 8

-- The base fee of the next block by EIP-1559.
abbrev pub next_base_fee : ℕ → ℕ → ℕ → ℕ
next_base_fee gas_limit gas_used base_fee =
    let target = gas_limit / 2 in
    if ltb target gas_used
    then base_fee + max 1 (fee_change (gas_used - target) target base_fee)
    else base_fee - fee_change (target - gas_used) target base_fee

mul_mono : (a b c : ℕ) → a ≤ b → a * c ≤ b * c
mul_mono a b c h = grind arith

fee_change-le :
    (diff target base_fee : ℕ) → diff ≤ target → fee_change diff target base_fee ≤ base_fee / 8
fee_change-le diff target base_fee le =
    omega (arith, div-le_of_le-mul target (mul_mono diff target base_fee le))

fee_change-le-mul : (diff target base_fee : ℕ) → fee_change diff target base_fee ≤ diff * base_fee
fee_change-le-mul diff target base_fee = omega (arith, div-le_self (diff * base_fee) target)

-- What a chain that computes the change goes on with.
change_of_chain :
    (u : Uint) (a b target base_fee : ℕ) (go : ℕ → Option ℕ) {fee : ℕ}
    → (do
      num ← u.sub a b
      num ← u.mul num base_fee
      num ← u.div num target
      num ← u.div num 8
      go num)
      ≡ some fee
    → go (fee_change (a - b) target base_fee) ≡ some fee
change_of_chain u a b target base_fee go h = ground (
  arith,
  u.sub_lem a b,
  u.mul_lem (a - b) base_fee,
  u.div_lem ((a - b) * base_fee) target,
  u.div_lem ((a - b) * base_fee / target) 8,
)

module _ (u : Uint) (gas_limit gas_used base_fee : ℕ) where
  -- For a gas limit of at least 2, gas used within it, and numbers whose products fit in 256 bits,
  -- the base fee of the next block is that of EIP-1559: nothing panics.
  pub calc_base_fee-eq-next :
      2 ≤ gas_limit
      → gas_used ≤ gas_limit
      → gas_limit * base_fee + base_fee + 1 < u256_mod
      → calc_base_fee u gas_limit gas_used base_fee
        ≡ some (next_base_fee gas_limit gas_used base_fee)
  unfolding calc_base_fee
  calc_base_fee-eq-next h within range =
      let target = gas_limit / 2 in
      let excess = gas_used - target in
      let unused = target - gas_used in
      ground (
        arith,
        u.sub_lem gas_used target,
        u.mul_lem excess base_fee,
        u.div_lem (excess * base_fee) target,
        u.div_lem (excess * base_fee / target) 8,
        u.add_lem (max (excess * base_fee / target / 8) 1) base_fee,
        u.sub_lem target gas_used,
        u.mul_lem unused base_fee,
        u.div_lem (unused * base_fee) target,
        u.div_lem (unused * base_fee / target) 8,
        u.sub_lem base_fee (unused * base_fee / target / 8),
        fee_change-le unused target base_fee,
        fee_change-le-mul excess target base_fee,
        mul_mono excess gas_limit base_fee,
        mul_mono unused gas_limit base_fee,
      )

  -- A base fee that is computed is that of EIP-1559, whatever the numbers.
  next_of_calc_base_fee :
      {fee : ℕ}
      → calc_base_fee u gas_limit gas_used base_fee ≡ some fee
      → fee ≡ next_base_fee gas_limit gas_used base_fee
  unfolding calc_base_fee
  next_of_calc_base_fee {fee} computed =
      let target = gas_limit / 2 in
      let raise = λ (num : ℕ). u.add (max num 1) base_fee in
      let lower = λ (num : ℕ). u.sub base_fee num >>= λ f. some (max f 0) in
      let up = fee_change (gas_used - target) target base_fee in
      let down = fee_change (target - gas_used) target base_fee in
      ground (
        arith,
        change_of_chain u gas_used target target base_fee raise {fee = fee},
        change_of_chain u target gas_used target base_fee lower {fee = fee},
        u.add_lem (max up 1) base_fee,
        u.sub_lem base_fee down,
      )

  -- While no more than twice the target is used, a base fee that is computed has risen, by at
  -- most an eighth or 1, exactly when the target was exceeded, and has fallen by at most an eighth.
  pub calc_base_fee_bounds :
      {fee : ℕ}
      → gas_used ≤ 2 * (gas_limit / 2)
      → calc_base_fee u gas_limit gas_used base_fee ≡ some fee
      → ((gas_limit / 2 < gas_used) ↔ (base_fee < fee))
        × (fee ≤ base_fee + max 1 (base_fee / 8))
        × (base_fee ≤ fee + base_fee / 8)
  calc_base_fee_bounds {fee} within computed =
      let target = gas_limit / 2 in
      let e = next_of_calc_base_fee computed in
      ground (
        arith,
        e,
        fee_change-le (target - gas_used) target base_fee,
        fee_change-le (gas_used - target) target base_fee,
      )

  -- A parent whose gas limit is below 2 makes the computation panic once any gas is used.
  pub calc_base_fee_panics :
      gas_limit < 2 → 0 < gas_used → calc_base_fee u gas_limit gas_used base_fee ≡ none
  unfolding calc_base_fee
  calc_base_fee_panics small used = ground (
    arith,
    u.sub_lem gas_used (gas_limit / 2),
    u.mul_lem (gas_used - gas_limit / 2) base_fee,
    u.div_lem ((gas_used - gas_limit / 2) * base_fee) (gas_limit / 2),
  )
