-- ===== src/Examples/Words.antt =====
-- Numbers read from bytes and taken to words, with their binary digits counted.
use evm_executor_rs.Base.{
  ℕ, zero, suc, ◌/◌, ◌^◌, ◌≤◌, ◌<◌, refl, ◌↔◌, none, some, arith, ltb, if◌then◌else◌, u64_mod,
}
use native.Mathlib.Nat.{pow-suc}
use evm_executor_rs.Base.Bytes.{be_value}
use evm_executor_rs.External.Uint.{UintBytes}

-- The binary digits of a number, counted with fuel.
unfoldable pub bits_of : ℕ → ℕ → ℕ
bits_of zero n = 0
bits_of (suc fuel) zero = 0
bits_of (suc fuel) (suc n) = suc (bits_of fuel (suc n / 2))

pow_pos : (k : ℕ) → 1 ≤ 2 ^ k
pow_pos zero = omega arith
pow_pos (suc k) = omega (arith, pow_pos k, pow-suc 2 k)

-- A number has one bit more than its half.
step : (m n k : ℕ) → ((l : ℕ) → (m ≤ l) ↔ (n / 2 < 2 ^ l)) → 1 ≤ n → (suc m ≤ k) ↔ (n < 2 ^ k)
step m n zero i p = ((λ e. omega arith), (λ e. omega (arith, p, e)))
step m n (suc k) i p = (
  (λ e. omega (arith, (i k).0 (omega (arith, e)), pow-suc 2 k)),
  (λ e. omega (arith, (i k).1 (omega (arith, e, pow-suc 2 k)))),
)

pub bits_of_le : (fuel n k : ℕ) → n ≤ fuel → (bits_of fuel n ≤ k) ↔ (n < 2 ^ k)
unfolding bits_of
bits_of_le zero n k h = ((λ e. omega (arith, pow_pos k, h)), (λ e. omega arith))
bits_of_le (suc fuel) zero k h = ((λ e. omega (arith, pow_pos k, h)), (λ e. omega arith))
bits_of_le (suc fuel) (suc n) k h =
    step (bits_of fuel (suc n / 2)) (suc n) k
      (λ l. bits_of_le fuel (suc n / 2) l (omega (arith, h))) (omega arith)

abbrev pub words : UintBytes
words = record {
  from_slice = be_value;
  as_u64 = λ n. if ltb n u64_mod then some n else none;
  bits = λ n. bits_of n n;
  from_slice_lem = λ xs h. refl;
  as_u64_lem = λ n. refl;
  bits_le = λ n k. bits_of_le n n k (omega arith);
}
