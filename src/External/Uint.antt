-- ===== src/External/Uint.antt =====
-- The 256-bit unsigned numbers of the crate `eth_types` (`U256`, `SU256`). A value is a number; an
-- operation returns its result or panics (`none`). The laws are the documented behaviour of the
-- operators: exact results in range, a panic on overflow, underflow and division by zero.
use evm_executor_rs.Base.{
  ℕ, ◌+◌, ◌-◌, ◌*◌, ◌/◌, ◌^◌, ◌≡◌, Option, none, some, ltb, leb, if◌then◌else◌, ◌==◌, ◌≤◌, ◌<◌, ◌↔◌,
  length, u64_mod,
}
use evm_executor_rs.Base.Bytes.{be_value}
use evm_executor_rs.External.Traits.{Bytes}

abbrev pub u256_mod : ℕ
u256_mod = 2 ^ 256

pub record Uint : Type 0 where
  pub add : ℕ → ℕ → Option ℕ
  pub sub : ℕ → ℕ → Option ℕ
  pub mul : ℕ → ℕ → Option ℕ
  pub div : ℕ → ℕ → Option ℕ
  pub add_lem : (a b : ℕ) → add a b ≡ (if ltb (a + b) u256_mod then some (a + b) else none)
  pub sub_lem : (a b : ℕ) → sub a b ≡ (if leb b a then some (a - b) else none)
  pub mul_lem : (a b : ℕ) → mul a b ≡ (if ltb (a * b) u256_mod then some (a * b) else none)
  pub div_lem : (a b : ℕ) → div a b ≡ (if b == 0 then none else some (a / b))

-- How the same numbers are read from bytes and taken to machine words. A cast panics if the number
-- is too large; the bits of a number are the digits of its binary form.
pub record UintBytes : Type 0 where
  -- `U256::from(&[u8])`, at most 32 bytes
  pub from_slice : Bytes → ℕ
  -- `as_usize` and `as_u64`
  pub as_u64 : ℕ → Option ℕ
  pub bits : ℕ → ℕ
  pub from_slice_lem : (xs : Bytes) → length xs ≤ 32 → from_slice xs ≡ be_value xs
  pub as_u64_lem : (n : ℕ) → as_u64 n ≡ (if ltb n u64_mod then some n else none)
  pub bits_le : (n k : ℕ) → (bits n ≤ k) ↔ (n < 2 ^ k)
