-- ===== src/Precompile/ModExp/Run.antt =====
-- What `PrecompileBigModExp::run` returns: the power, in as many bytes as the modulus has; and
-- where it panics.
use evm_executor_rs.Base.{
  ℕ, ◌+◌, ◌^◌, ◌≤◌, ◌<◌, ◌≡◌, refl, ap, ◌∙◌, ◌↔◌, false, Bool-cases, inl, inr, Option, none, some,
  [], arith, length, ◌==◌, ==_iff, panic,
}
use evm_executor_rs.Base.Bytes.{All, IsByte, be_value, be_value_bound}
use evm_executor_rs.External.Traits.{Bytes}
use evm_executor_rs.Precompile.Contract.{Crates, returned_bytes}
use evm_executor_rs.Precompile.ModExp.{
  PrecompileBigModExp, Lengths, padded, read_array, exceeds, power, fill, modexp_power,
  modexp_checked, modexp_run,
}
use evm_executor_rs.Base.Bytes.Windows.{window, window_same, length-window, window-IsByte}
use evm_executor_rs.Precompile.ModExp.Windows.{
  lengths_of, AreSmall, read_lengths_small, byte_at-padded, read_array-window,
}
use evm_executor_rs.Precompile.ModExp.Fill.{mod_power, power_cases, fill_value}

-- The numbers that the input names.
abbrev pub base_of : Bytes → ℕ
base_of input = be_value (window (lengths_of input).base input 96)

abbrev pub exponent_of : Bytes → ℕ
exponent_of input =
    be_value (window (lengths_of input).exponent input (96 + (lengths_of input).base))

abbrev pub modulus_of : Bytes → ℕ
modulus_of input = be_value (
    window (lengths_of input).modulus input
      (96 + (lengths_of input).base + (lengths_of input).exponent))

-- No length is over the limit.
abbrev pub IsAllowed : Option ℕ → Lengths → Type 0
IsAllowed none l = Unit
IsAllowed (some limit) l = (l.base ≤ limit) × (l.exponent ≤ limit) × (l.modulus ≤ limit)

module _ (c : Crates) (self : PrecompileBigModExp) where
  allowed_within : (o : Option ℕ) (l : Lengths) → IsAllowed o l → exceeds c self o l ≡ false
  allowed_within none l a = refl
  allowed_within (some limit) l a = ground arith

  array_value :
      (n : ℕ) (input : Bytes) (pos : ℕ)
      → c.big_uint.from_bytes_be (read_array n (padded input) pos) ≡ be_value (window n input pos)
  array_value n input pos =
      c.big_uint.from_bytes_be_lem (read_array n (padded input) pos)
      ∙ ap be_value (
          read_array-window n (padded input) pos
          ∙ window_same n (padded input) input pos (pos + n) (λ i h. byte_at-padded input i)
              (omega arith))

  -- Behind the checks the power is filled up to the length of the modulus.
  modexp_power-fill :
      (input : Bytes)
      → modexp_power c self (padded input) (lengths_of input)
        ≡ fill c self
            (lengths_of input).modulus
            (power c self (base_of input) (exponent_of input) (modulus_of input))
  unfolding modexp_power
  modexp_power-fill input =
      let l = lengths_of input in
      rw
        (
          array_value l.base input 96,
          array_value l.exponent input (96 + l.base),
          array_value l.modulus input (96 + l.base + l.exponent),
        )
        refl

  run_checked :
      (input : Bytes)
      → AreSmall (lengths_of input)
      → modexp_run c self input ≡ modexp_checked c self input (lengths_of input)
  unfolding modexp_run
  run_checked input small = rw (read_lengths_small c.uint_bytes input small) refl

  checked_power :
      (input : Bytes) (l : Lengths)
      → exceeds c self self.length_limit l ≡ false
      → 1 ≤ l.modulus
      → modexp_checked c self input l ≡ modexp_power c self (padded input) l
  unfolding modexp_checked
  checked_power input l e pos = ground (arith, e)

  -- For an input of bytes whose header gives lengths that fit in machine words and are within the
  -- limit, and a modulus of at least one byte, the contract returns base ^ exponent % modulus, or 0 for the modulus 0, in as many bytes
  -- as the modulus has. Bytes beyond the end of the input count as zeros.
  pub modexp_run_value :
      (input : Bytes)
      → All IsByte input
      → AreSmall (lengths_of input)
      → IsAllowed self.length_limit (lengths_of input)
      → 1 ≤ (lengths_of input).modulus
      → (out : Bytes) × (modexp_run c self input ≡ returned_bytes out)
        × (length out ≡ (lengths_of input).modulus)
        × (be_value out ≡ mod_power (base_of input) (exponent_of input) (modulus_of input))
  modexp_run_value input bytes small allowed pos =
      let l = lengths_of input in
      let m = window l.modulus input (96 + l.base + l.exponent) in
      let bound : modulus_of input < 256 ^ l.modulus =
        rw (length-window l.modulus input (96 + l.base + l.exponent)) at
          (be_value_bound m (window-IsByte l.modulus input (96 + l.base + l.exponent) bytes)) in
      let (short, value) =
        power_cases c self (base_of input) (exponent_of input) (modulus_of input) l.modulus bound
          pos in
      let (out, e, size, v) =
        fill_value c self l.modulus
          (power c self (base_of input) (exponent_of input) (modulus_of input)) short in
      (
        out,
        run_checked input small
            ∙ checked_power input (lengths_of input)
                (allowed_within self.length_limit (lengths_of input) allowed) pos
            ∙ modexp_power-fill input
            ∙ e,
        size,
        v ∙ value,
      )

  checked_empty :
      (input : Bytes) (l : Lengths)
      → exceeds c self self.length_limit l ≡ false
      → l.base ≡ 0
      → l.modulus ≡ 0
      → modexp_checked c self input l ≡ returned_bytes []
  unfolding modexp_checked
  checked_empty input l e b m = ground (arith, e)

  checked_base :
      (input : Bytes) (l : Lengths)
      → exceeds c self self.length_limit l ≡ false
      → 1 ≤ l.base
      → modexp_checked c self input l ≡ modexp_power c self (padded input) l
  unfolding modexp_checked
  checked_base input l e b = ground (arith, e)

  -- An empty modulus is the number 0, whose one byte is too long.
  fill_empty :
      (b e size : ℕ) (input : Bytes) (pos : ℕ)
      → size ≡ 0
      → fill c self size (power c self b e (be_value (window size input pos))) ≡ panic
  unfolding fill power window be_value
  fill_empty b e size input pos z = rw z (ground (arith, c.big_uint.to_bytes_be_one 0))

  -- For an input of bytes whose header gives lengths that fit in machine words and are within the
  -- limit, the contract panics exactly if the modulus has no bytes and the base has some.
  pub modexp_run_panics_iff :
      (input : Bytes)
      → All IsByte input
      → AreSmall (lengths_of input)
      → IsAllowed self.length_limit (lengths_of input)
      → (modexp_run c self input ≡ panic)
        ↔ ((1 ≤ (lengths_of input).base) × ((lengths_of input).modulus ≡ 0))
  modexp_run_panics_iff input bytes small allowed = (found, panics)
    where
      within : exceeds c self self.length_limit (lengths_of input) ≡ false
      within = allowed_within self.length_limit (lengths_of input) allowed

      panics :
          ((1 ≤ (lengths_of input).base) × ((lengths_of input).modulus ≡ 0))
          → modexp_run c self input ≡ panic
      panics (b, z) =
          run_checked input small
          ∙ checked_base input (lengths_of input) within b
          ∙ modexp_power-fill input
          ∙ fill_empty (base_of input) (exponent_of input) (lengths_of input).modulus input
              (96 + (lengths_of input).base + (lengths_of input).exponent) z

      found :
          modexp_run c self input ≡ panic
          → (1 ≤ (lengths_of input).base) × ((lengths_of input).modulus ≡ 0)
      found e = elim (Bool-cases ((lengths_of input).modulus == 0)) [
        | inr more ↦
            let (out, v, _, _) =
              modexp_run_value input bytes small allowed (ground (arith, more)) in
            absurd (ground (arith, v, e))
        | inl z ↦ elim (Bool-cases ((lengths_of input).base == 0)) [
          | inr more ↦ (ground (arith, more), (==_iff (lengths_of input).modulus 0).0 z)
          | inl y ↦ absurd (
              ground (
                arith,
                run_checked input small,
                checked_empty input (lengths_of input) within
                    ((==_iff (lengths_of input).base 0).0 y)
                    ((==_iff (lengths_of input).modulus 0).0 z),
                e,
              ))
        ]
      ]
