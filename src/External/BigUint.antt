-- ===== src/External/BigUint.antt =====
-- `num_bigint::BigUint`, natural numbers of any size, and the laws of what is used of it.
use evm_executor_rs.Base.{ℕ, ◌^◌, ◌%◌, ◌≤◌, ◌<◌, ◌≡◌, length}
use evm_executor_rs.Base.Bytes.{be_value}
use evm_executor_rs.External.Traits.{Bytes}

pub record BigUint : Type 0 where
  pub from_bytes_be : Bytes → ℕ
  pub to_bytes_be : ℕ → Bytes
  -- base, exponent, modulus
  pub modpow : ℕ → ℕ → ℕ → ℕ
  pub from_bytes_be_lem : (xs : Bytes) → from_bytes_be xs ≡ be_value xs
  pub to_bytes_be_lem : (n : ℕ) → be_value (to_bytes_be n) ≡ n
  -- No byte more than the number needs, but one for 0.
  pub to_bytes_be_short : (n k : ℕ) → n < 256 ^ k → 1 ≤ k → length (to_bytes_be n) ≤ k
  pub to_bytes_be_one : (n : ℕ) → 1 ≤ length (to_bytes_be n)
  pub modpow_lem : (b e m : ℕ) → 1 ≤ m → modpow b e m ≡ b ^ e % m
