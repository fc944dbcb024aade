-- ===== src/Precompile/ModExp/Fill.antt =====
-- The bytes of a power, filled up with zeros in front.
use native.Mathlib.Nat.{mod-lt}
use evm_executor_rs.Base.{
  ℕ, zero, suc, ◌+◌, ◌-◌, ◌%◌, ◌^◌, ◌≤◌, ◌<◌, ◌≡◌, refl, ◌∙◌, Bool-cases, inl, inr, ◌∷◌, arith,
  length, ◌==◌, ==_iff, if◌then◌else◌,
}
use evm_executor_rs.Base.Bytes.{be_value}
use evm_executor_rs.External.Traits.{Bytes}
use evm_executor_rs.Precompile.Contract.{Crates, returned_bytes}
use evm_executor_rs.Precompile.ModExp.{PrecompileBigModExp, insert_zeros, power, fill}

-- The power, 0 for the modulus 0.
abbrev pub mod_power : ℕ → ℕ → ℕ → ℕ
mod_power b e m = if m == 0 then 0 else b ^ e % m

be_value-insert_zeros : (n : ℕ) (xs : Bytes) → be_value (insert_zeros n xs) ≡ be_value xs
unfolding insert_zeros be_value
be_value-insert_zeros zero xs = refl
be_value-insert_zeros (suc n) xs = be_value-insert_zeros n (0 ∷ xs) ∙ omega arith

length-insert_zeros : (n : ℕ) (xs : Bytes) → length (insert_zeros n xs) ≡ n + length xs
unfolding insert_zeros
length-insert_zeros zero xs = omega arith
length-insert_zeros (suc n) xs = omega (arith, length-insert_zeros n (0 ∷ xs))

module _ (c : Crates) (self : PrecompileBigModExp) where
  pub power_cases :
      (b e m size : ℕ)
      → m < 256 ^ size
      → 1 ≤ size
      → (length (power c self b e m) ≤ size) × (be_value (power c self b e m) ≡ mod_power b e m)
  unfolding power
  power_cases b e m size h one = elim (Bool-cases (m == 0)) [
    | inl z ↦ rw z (zero_short, c.big_uint.to_bytes_be_lem 0)
    | inr nz ↦ rw nz (elim (Bool-cases (m == 1)) [
      | inl o ↦ rw o (zero_short, c.big_uint.to_bytes_be_lem 0 ∙ mod_one ((==_iff m 1).0 o))
      | inr more ↦
          let pos : 1 ≤ m = ground (arith, nz) in
          rw (more, c.big_uint.modpow_lem b e m pos)
            (
              c.big_uint.to_bytes_be_short (b ^ e % m) size (below pos) one,
              c.big_uint.to_bytes_be_lem (b ^ e % m),
            )
    ])
  ]
    where
      zero_short : length (c.big_uint.to_bytes_be 0) ≤ size
      zero_short = c.big_uint.to_bytes_be_short 0 size (omega arith) one

      mod_one : m ≡ 1 → 0 ≡ b ^ e % m
      mod_one p = rw p (omega arith)

      below : 1 ≤ m → b ^ e % m < 256 ^ size
      below pos = omega (arith, mod-lt (b ^ e) pos)

  pub fill_value :
      (size : ℕ) (xs : Bytes)
      → length xs ≤ size
      → (out : Bytes) × (fill c self size xs ≡ returned_bytes out)
        × (length out ≡ size)
        × (be_value out ≡ be_value xs)
  unfolding fill
  fill_value size xs h = (
    insert_zeros (size - length xs) xs,
    ground arith,
    omega (arith, length-insert_zeros (size - length xs) xs),
    be_value-insert_zeros (size - length xs) xs,
  )
