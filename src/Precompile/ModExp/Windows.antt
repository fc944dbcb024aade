-- ===== src/Precompile/ModExp/Windows.antt =====
-- The input of the modular exponentiation as the bytes at its places, 0 beyond the end: what the
-- padding, the slices and the loops of `PrecompileBigModExp` read.
use evm_executor_rs.Base.{
  ℕ, zero, suc, ◌+◌, ◌-◌, ◌≤◌, ◌<◌, ◌≡◌, refl, ap, ◌∙◌, none, some, [], ◌∷◌, ◌++◌, arith, length,
  length-append, leb, if◌then◌else◌, u64_mod, max,
}
use evm_executor_rs.Base.Bytes.Windows.{
  window, byte_at_beyond, window_same, length-window, slice-window,
}
use evm_executor_rs.Base.Bytes.{byte_at, be_value}
use evm_executor_rs.External.Traits.{Bytes}
use evm_executor_rs.External.Uint.{UintBytes}
use evm_executor_rs.Precompile.ModExp.{
  push_zeros, padded, Lengths, read_length, read_lengths, read_array,
}

byte_at-append_zero : (xs : Bytes) (i : ℕ) → byte_at (xs ++ 0 ∷ []) i ≡ byte_at xs i
byte_at-append_zero [] zero = refl
byte_at-append_zero [] (suc i) = refl
byte_at-append_zero (x ∷ xs) zero = refl
byte_at-append_zero (x ∷ xs) (suc i) = byte_at-append_zero xs i

byte_at-push_zeros : (n : ℕ) (xs : Bytes) (i : ℕ) → byte_at (push_zeros n xs) i ≡ byte_at xs i
unfolding push_zeros
byte_at-push_zeros zero xs i = refl
byte_at-push_zeros (suc n) xs i = byte_at-push_zeros n (xs ++ 0 ∷ []) i ∙ byte_at-append_zero xs i

length-push_zeros : (n : ℕ) (xs : Bytes) → length (push_zeros n xs) ≡ length xs + n
unfolding push_zeros
length-push_zeros zero xs = omega arith
length-push_zeros (suc n) xs =
    omega (arith, length-push_zeros n (xs ++ 0 ∷ []), length-append xs (0 ∷ []))

pub byte_at-padded : (xs : Bytes) (i : ℕ) → byte_at (padded xs) i ≡ byte_at xs i
unfolding padded
byte_at-padded xs i = byte_at-push_zeros (96 - length xs) xs i

pub length-padded : (xs : Bytes) → length (padded xs) ≡ max 96 (length xs)
unfolding padded
length-padded xs = omega (arith, length-push_zeros (96 - length xs) xs)

pub read_array-window : (n : ℕ) (xs : Bytes) (pos : ℕ) → read_array n xs pos ≡ window n xs pos
unfolding read_array window
read_array-window zero xs pos = refl
read_array-window (suc n) xs pos =
    let here : (if leb (length xs) pos then 0 else byte_at xs pos) ≡ byte_at xs pos =
      ground (arith, byte_at_beyond xs pos) in
    rw (here, read_array-window n xs (pos + 1)) refl

-- The lengths that the header gives.
unfoldable pub lengths_of : Bytes → Lengths
unfolding window
lengths_of input = record {
  base = be_value (window 32 input 0);
  exponent = be_value (window 32 input 32);
  modulus = be_value (window 32 input 64);
}

-- They fit in machine words.
pub record AreSmall (l : Lengths) : Type 0 where
  pub small_base : l.base < u64_mod
  pub small_exponent : l.exponent < u64_mod
  pub small_modulus : l.modulus < u64_mod

module _ (u : UintBytes) where
  pub from_window :
      (n : ℕ) (xs : Bytes) (pos : ℕ)
      → n ≤ 32
      → u.from_slice (window n xs pos) ≡ be_value (window n xs pos)
  from_window n xs pos h =
      u.from_slice_lem (window n xs pos) (omega (arith, length-window n xs pos))

  read_length_value :
      (input : Bytes) (from : ℕ)
      → from + 32 ≤ 96
      → read_length u (padded input) from ≡ u.as_u64 (be_value (window 32 input from))
  unfolding read_length
  read_length_value input from h =
      let same =
        window_same 32 (padded input) input from (from + 32) (λ i h. byte_at-padded input i)
          (omega arith) in
      rw (slice-window (padded input) from 32 (omega (arith, length-padded input)))
        (ap u.as_u64 (from_window 32 (padded input) from (omega arith) ∙ ap be_value same))

  as_u64_small : (n : ℕ) → n < u64_mod → u.as_u64 n ≡ some n
  as_u64_small n h = ground (arith, u.as_u64_lem n)

  as_u64_large : (n : ℕ) → u64_mod ≤ n → u.as_u64 n ≡ none
  as_u64_large n h = ground (arith, u.as_u64_lem n)

  -- Lengths that fit are read.
  pub read_lengths_small :
      (input : Bytes) → AreSmall (lengths_of input) → read_lengths u input ≡ some (lengths_of input)
  unfolding read_lengths lengths_of
  read_lengths_small input small =
      rw
        (
          read_length_value input 0 (omega arith),
          read_length_value input 32 (omega arith),
          read_length_value input 64 (omega arith),
          as_u64_small (be_value (window 32 input 0)) small.small_base,
          as_u64_small (be_value (window 32 input 32)) small.small_exponent,
          as_u64_small (be_value (window 32 input 64)) small.small_modulus,
        )
        refl
