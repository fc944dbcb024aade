-- ===== src/Precompile/Ecrecover/Sized.antt =====
-- What `PrecompileEcrecover::run` cuts its input into.
use native.Mathlib.Nat.{pow-suc, mul-le-mul_right}
use evm_executor_rs.Base.{
  ℕ, zero, suc, ◌+◌, ◌-◌, ◌*◌, ◌^◌, ◌≤◌, ◌<◌, ◌≡◌, refl, ap, sym, ◌∙◌, ◌⊎◌, true, false, Bool-cases,
  inl, inr, some, [], ◌∷◌, arith, length, length-append, length-take, take, min, ltb,
}
use evm_executor_rs.Base.Bytes.{byte_at, slice, be_value, replicate, length-replicate}
use evm_executor_rs.Base.Bytes.Windows.{
  window, byte_at_beyond, window_same, slice-window, byte_at-append_zeros, byte_at-take,
  get_elem?-byte_at,
}
use evm_executor_rs.External.Traits.{Bytes}
use evm_executor_rs.Precompile.Ecrecover.{sized, any_nonzero, Parts, parts}

length-sized : (i : Bytes) → length (sized i) ≡ 128
unfolding sized
length-sized i =
    let n = min (length i) 128 in
    omega (
      arith,
      length-append (take n i) (replicate (128 - n) 0),
      length-take n i,
      length-replicate {A = ℕ} (128 - n) 0,
    )

byte_at-sized : (i : Bytes) (k : ℕ) → k < 128 → byte_at (sized i) k ≡ byte_at i k
unfolding sized
byte_at-sized i k h =
    let n = min (length i) 128 in
    byte_at-append_zeros (take n i) (128 - n) k ∙ elim (Bool-cases (ltb k (length i))) [
      | inl within ↦ byte_at-take n i k (ground (arith, within, h))
      | inr beyond ↦
          byte_at_beyond (take n i) k (ground (arith, length-take n i, beyond))
          ∙ sym (byte_at_beyond i k (ground (arith, beyond)))
    ]

window-sized :
    (n : ℕ) (i : Bytes) (pos : ℕ) → pos + n ≤ 128 → window n (sized i) pos ≡ window n i pos
window-sized n i pos h = window_same n (sized i) i pos 128 (byte_at-sized i) h

slice-sized :
    (i : Bytes) (from n : ℕ)
    → from + n ≤ 128
    → slice (sized i) from (from + n) ≡ some (window n i from)
slice-sized i from n h =
    slice-window (sized i) from n (omega (arith, length-sized i, h))
    ∙ ap some (window-sized n i from h)

-- The parts are the words of the input and the last byte of the second one.
abbrev pub parts_of : Bytes → Parts
parts_of i = record {
  msg = window 32 i 0;
  r_bytes = window 32 i 64;
  s_bytes = window 32 i 96;
  v = byte_at i 63;
  zeros = window 31 i 32;
}

pub parts-sized : (i : Bytes) → parts (sized i) ≡ some (parts_of i)
unfolding parts
parts-sized i =
    rw
      (
        slice-sized i 0 32 (omega arith),
        slice-sized i 64 32 (omega arith),
        slice-sized i 96 32 (omega arith),
        get_elem?-byte_at (sized i) 63 (omega (arith, length-sized i)),
        byte_at-sized i 63 (omega arith),
        slice-sized i 32 31 (omega arith),
      )
      refl

pow_pos : (xs : Bytes) → 1 ≤ 256 ^ length xs
pow_pos [] = omega arith
pow_pos (x ∷ xs) = omega (arith, pow_pos xs, pow-suc 256 (length xs))

-- Bytes are zeros exactly if their number is 0.
pub any_nonzero_cases :
    (xs : Bytes)
    → ((any_nonzero xs ≡ false) × (be_value xs ≡ 0)) ⊎ ((any_nonzero xs ≡ true) × (1 ≤ be_value xs))
unfolding be_value
any_nonzero_cases [] = inl (refl, refl)
any_nonzero_cases (zero ∷ xs) = elim (any_nonzero_cases xs) [
  | inl (e, z) ↦ inl (ground (arith, e), omega (arith, z))
  | inr (e, p) ↦ inr (ground (arith, e), omega (arith, p))
]
any_nonzero_cases (suc x ∷ xs) =
    let high : 1 * 256 ^ length xs ≤ suc x * 256 ^ length xs =
      mul-le-mul_right (256 ^ length xs) (omega arith) in
    inr (ground arith, omega (arith, high, pow_pos xs))
