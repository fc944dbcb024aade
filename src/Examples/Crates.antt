-- ===== src/Examples/Crates.antt =====
-- Concrete instances of what the precompiled contracts take from other crates: numbers, hashes of
-- constant bytes, and a curve whose group is that of the numbers.
use evm_executor_rs.Base.{
  Bool, true, ℕ, zero, suc, ◌+◌, ◌*◌, ◌/◌, ◌%◌, ◌^◌, ◌≤◌, ◌<◌, ◌≡◌, refl, ◌∙◌, none, some, [], ◌∷◌,
  ◌++◌, arith, length, length-append, ltb, ◌==◌, if◌then◌else◌, ◌&&◌,
}
use native.Mathlib.Nat.{pow-suc}
use evm_executor_rs.Base.Bytes.{All, IsByte, be_value, be_value-append_one, replicate}
use evm_executor_rs.External.Traits.{Bytes}
use evm_executor_rs.External.BigUint.{BigUint}
use evm_executor_rs.External.Hashes.{Hashes, HashesLaws}
use evm_executor_rs.External.Bn.{Bn, BnLaws}
use evm_executor_rs.Precompile.Contract.{Crates}
use evm_executor_rs.Examples.Words.{words}
use evm_executor_rs.Examples.World.{checked}

-- The base-256 digits of a number, highest first, with fuel.
unfoldable pub digits_of : ℕ → ℕ → Bytes
digits_of zero n = []
digits_of (suc fuel) zero = []
digits_of (suc fuel) (suc n) = digits_of fuel (suc n / 256) ++ (suc n % 256) ∷ []

be_value-digits_of : (fuel n : ℕ) → n ≤ fuel → be_value (digits_of fuel n) ≡ n
unfolding digits_of be_value
be_value-digits_of zero n h = omega (arith, h)
be_value-digits_of (suc fuel) zero h = refl
be_value-digits_of (suc fuel) (suc n) h =
    be_value-append_one (digits_of fuel (suc n / 256)) (suc n % 256)
    ∙ omega (arith, be_value-digits_of fuel (suc n / 256) (omega (arith, h)))

length-digits_of : (fuel n k : ℕ) → n < 256 ^ k → length (digits_of fuel n) ≤ k
unfolding digits_of
length-digits_of zero n k h = omega arith
length-digits_of (suc fuel) zero k h = omega arith
length-digits_of (suc fuel) (suc n) zero h = absurd (omega (arith, h))
length-digits_of (suc fuel) (suc n) (suc k) h = omega (
  arith,
  length-append (digits_of fuel (suc n / 256)) ((suc n % 256) ∷ []),
  length-digits_of fuel (suc n / 256) k (omega (arith, pow-suc 256 k, h)),
)

-- One zero for the number 0.
unfoldable pub to_bytes : ℕ → Bytes
to_bytes zero = 0 ∷ []
to_bytes (suc n) = digits_of (suc n) (suc n)

pub to_bytes_value : (n : ℕ) → be_value (to_bytes n) ≡ n
unfolding to_bytes be_value
to_bytes_value zero = refl
to_bytes_value (suc n) = be_value-digits_of (suc n) (suc n) (omega arith)

pub to_bytes_short : (n k : ℕ) → n < 256 ^ k → 1 ≤ k → length (to_bytes n) ≤ k
unfolding to_bytes
to_bytes_short zero k h one = one
to_bytes_short (suc n) k h one = length-digits_of (suc n) (suc n) k h

pub to_bytes_one : (n : ℕ) → 1 ≤ length (to_bytes n)
unfolding to_bytes digits_of
to_bytes_one zero = omega arith
to_bytes_one (suc n) = omega (arith, length-append (digits_of n (suc n / 256)) ((suc n % 256) ∷ []))

unfoldable pub power_of : ℕ → ℕ → ℕ → ℕ
power_of b e zero = 0
power_of b e (suc m) = b ^ e % suc m

pub power_lem : (b e m : ℕ) → 1 ≤ m → power_of b e m ≡ b ^ e % m
unfolding power_of
power_lem b e zero h = absurd (omega (arith, h))
power_lem b e (suc m) h = refl

abbrev pub numbers : BigUint
numbers = record {
  from_bytes_be = be_value;
  to_bytes_be = to_bytes;
  modpow = power_of;
  from_bytes_be_lem = λ xs. refl;
  to_bytes_be_lem = to_bytes_value;
  to_bytes_be_short = to_bytes_short;
  to_bytes_be_one = to_bytes_one;
  modpow_lem = power_lem;
}

-- Hashes of ones, and a recovered key of no bytes.
abbrev pub ones : Hashes
ones = record {
  keccak_hash = λ xs. replicate 32 1;
  sha256_sum = λ xs. replicate 32 1;
  ripemd160 = λ xs. replicate 20 1;
  ecdsa_recover = λ signature msg. some [];
}

abbrev pub ones_laws : HashesLaws ones
ones_laws = record {
  length-keccak_hash = λ xs. refl;
  length-sha256_sum = λ xs. refl;
  length-ripemd160 = λ xs. refl;
}

-- The group of the numbers under addition, all of whose points are on the curve whose first
-- coordinate is below 100; a point is written as itself and 0.
abbrev pub line : Bn
line = record {
  Fq = ℕ;
  Fq2 = ℕ;
  Fr = ℕ;
  G1 = ℕ;
  G2 = ℕ;
  Gt = ℕ;
  fq_from_slice = λ xs. some (be_value xs);
  fq_zero = 0;
  fq_eq = λ x y. x == y;
  fq_is_zero = λ x. x == 0;
  fr_from_slice = λ xs. some (be_value xs);
  affine_g1 = λ x y. if ltb x 100 then some x else none;
  g1_zero = 0;
  g1_add = ◌+◌;
  g1_mul = ◌*◌;
  from_jacobian = λ x. if x == 0 then none else some (x, 0);
  into_u256_bytes = λ x. some (replicate 31 0 ++ (x % 256) ∷ []);
  fq_bytes = λ x. some (replicate 31 0 ++ (x % 256) ∷ []);
  fq2_new = ◌+◌;
  fq2_is_zero = λ x. x == 0;
  affine_g2 = λ x y. if ltb x 100 then some x else none;
  g2_zero = 0;
  pairing = ◌*◌;
  gt_one = 0;
  gt_mul = ◌+◌;
  gt_eq = λ x y. x == y;
}

abbrev pub line_laws : BnLaws line
line_laws = record {
  g1_add_comm = λ p q. omega arith;
  fr_from_slice_32 = λ xs h. (be_value xs, refl);
  length-into_u256_bytes = λ x. (replicate 31 0 ++ (x % 256) ∷ [], refl, refl);
  length-fq_bytes = λ x. (replicate 31 0 ++ (x % 256) ∷ [], refl, refl);
  gt_mul_one = λ x. omega arith;
  gt_one_mul = λ x. omega arith;
  gt_mul_assoc = λ x y z. omega arith;
  gt_one_eq = refl;
}

abbrev pub crates : Crates
crates = record { uint = checked; uint_bytes = words; big_uint = numbers; hashes = ones; bn = line }

-- A test of bytes.
abbrev pub are_bytes : Bytes → Bool
are_bytes [] = true
are_bytes (x ∷ xs) = ltb x 256 && are_bytes xs

pub are_bytes-IsByte : (xs : Bytes) → are_bytes xs ≡ true → All IsByte xs
are_bytes-IsByte [] e = tt
are_bytes-IsByte (x ∷ xs) e = (ground (arith, e), are_bytes-IsByte xs (ground (arith, e)))

-- A number of one byte as a word.
abbrev pub word : ℕ → Bytes
word n = replicate 31 0 ++ n ∷ []
