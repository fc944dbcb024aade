-- ===== src/Precompile/ModExp/Price.antt =====
-- The price that `PrecompileBigModExp::required_gas` computes of the sizes, against that of EIP-2565,
-- and the length of the exponent that it counts.
use native.Mathlib.Nat.{mul-le-mul, pow-le-pow_right}
use evm_executor_rs.Base.{ℕ, ◌+◌, ◌-◌, ◌*◌, ◌/◌, ◌^◌, ◌≤◌, ◌<◌, ◌≡◌, some, arith, min, max, u64_mod}
use evm_executor_rs.Base.Bytes.{All, IsByte, be_value_bound, be_value}
use evm_executor_rs.External.Traits.{Bytes}
use evm_executor_rs.External.Uint.{Uint, UintBytes, u256_mod}
use evm_executor_rs.Precompile.Contract.{Crates}
use evm_executor_rs.Precompile.ModExp.{adjusted_length, capped, modexp_price}
use evm_executor_rs.Base.Bytes.Windows.{window, length-window, window-IsByte}

-- EIP-2565: the multiplication complexity of the longer of base and modulus, times the iterations,
-- a third of it, and at least 200. Here it stops at 2^64 - 1.
abbrev pub complexity : ℕ → ℕ
complexity size = (size + 7) / 8 * ((size + 7) / 8)

abbrev pub eip2565_price : ℕ → ℕ → ℕ
eip2565_price size iterations = min (u64_mod - 1) (max 200 (complexity size * max iterations 1 / 3))

-- The iterations: the bits of the exponent's first bytes but one, and 8 for each byte behind them.
abbrev pub iterations : UintBytes → ℕ → ℕ → ℕ
iterations u exponent head = (exponent - 32) * 8 + (u.bits head - 1)

module _ (v : Uint) (u : UintBytes) where
  capped_value : (gas : ℕ) → capped u gas ≡ some (min (u64_mod - 1) (max 200 gas))
  unfolding capped
  capped_value gas = ground (arith, u.bits_le gas 64, u.as_u64_lem gas)

  add_ok : (a b : ℕ) → a + b < u256_mod → v.add a b ≡ some (a + b)
  add_ok a b h = ground (arith, v.add_lem a b)

  mul_ok : (a b : ℕ) → a * b < u256_mod → v.mul a b ≡ some (a * b)
  mul_ok a b h = ground (arith, v.mul_lem a b)

  div_ok : (a b : ℕ) → 1 ≤ b → v.div a b ≡ some (a / b)
  div_ok a b h = ground (arith, v.div_lem a b)

  -- Nothing overflows 256 bits.
  pub price_value :
      (size n : ℕ)
      → size < u64_mod
      → n < u64_mod
      → modexp_price v u size n ≡ some (eip2565_price size n)
  unfolding modexp_price
  price_value size n hs hn =
      let q = (size + 7) / 8 in
      let small : q ≤ 2 ^ 61 = omega arith in
      let square : q * q ≤ 2 ^ 61 * 2 ^ 61 = mul-le-mul small small in
      let more : max n 1 ≤ 2 ^ 64 = omega arith in
      let product : q * q * max n 1 ≤ 2 ^ 61 * 2 ^ 61 * 2 ^ 64 = mul-le-mul square more in
      rw
        (
          add_ok size 7 (omega arith),
          div_ok (size + 7) 8 (omega arith),
          mul_ok q q (omega (arith, square)),
          mul_ok (q * q) (max n 1) (omega (arith, product)),
          div_ok (q * q * max n 1) 3 (omega arith),
        )
        (capped_value (q * q * max n 1 / 3))

module _ (c : Crates) where
  pub bits_bound :
      (n : ℕ) (input : Bytes) (pos : ℕ)
      → All IsByte input
      → n ≤ 32
      → c.uint_bytes.bits (be_value (window n input pos)) ≤ 256
  bits_bound n input pos bytes h =
      let bound =
        rw (length-window n input pos) at
          (be_value_bound (window n input pos) (window-IsByte n input pos bytes)) in
      let top : 256 ^ n ≤ 256 ^ 32 = pow-le-pow_right (omega arith) h in
      (c.uint_bytes.bits_le (be_value (window n input pos)) 256).1 (omega (arith, bound, top))

  pub adjusted_value :
      (exponent head : ℕ)
      → exponent < 2 ^ 61
      → c.uint_bytes.bits head ≤ 256
      → adjusted_length c.uint_bytes exponent head ≡ iterations c.uint_bytes exponent head
  unfolding adjusted_length
  adjusted_value exponent head h b = ground arith

  pub adjusted_wraps :
      (exponent k : ℕ) → exponent ≡ 32 + 2 ^ 61 * k → adjusted_length c.uint_bytes exponent 0 ≡ 0
  unfolding adjusted_length
  adjusted_wraps exponent k e = ground (arith, (c.uint_bytes.bits_le 0 0).1 (omega arith))

  pub adjusted_small : (exponent head : ℕ) → adjusted_length c.uint_bytes exponent head < u64_mod
  unfolding adjusted_length
  adjusted_small exponent head = omega arith
