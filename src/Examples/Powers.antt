-- ===== src/Examples/Powers.antt =====
-- Runs and prices of the modular exponentiation.
use evm_executor_rs.Base.{
  ℕ, ◌+◌, ◌≤◌, ◌<◌, ◌≡◌, ◌↔◌, refl, true, inr, none, some, [], ◌∷◌, ◌++◌, arith, length, min, panic,
}
use evm_executor_rs.Base.Bytes.{All, IsByte, be_value, replicate}
use evm_executor_rs.Base.Bytes.Windows.{window}
use evm_executor_rs.External.Traits.{Bytes}
use evm_executor_rs.Precompile.Contract.{returned_bytes}
use evm_executor_rs.Precompile.ModExp.{PrecompileBigModExp, modexp_run, modexp_gas}
use evm_executor_rs.Precompile.ModExp.Windows.{lengths_of, AreSmall}
use evm_executor_rs.Precompile.ModExp.Run.{modexp_run_value, modexp_run_panics_iff}
use evm_executor_rs.Precompile.ModExp.Price.{eip2565_price}
use evm_executor_rs.Precompile.ModExp.Gas.{
  modexp_gas-eip2565, modexp_gas_panics_iff, modexp_gas_wraps,
}
use evm_executor_rs.Examples.Crates.{crates, are_bytes-IsByte}
use evm_executor_rs.Examples.Words.{bits_of}
use evm_executor_rs.Examples.Crates.{word}

-- 3 to the power of 5, modulo 7.
abbrev three_to_five : Bytes
three_to_five = word 1 ++ word 1 ++ word 1 ++ 3 ∷ 5 ∷ 7 ∷ []

abbrev limited : PrecompileBigModExp
limited = record { eip2565 = true; length_limit = some 32 }

three_to_five-IsByte : All IsByte three_to_five
three_to_five-IsByte = are_bytes-IsByte three_to_five refl

three_to_five-AreSmall : AreSmall (lengths_of three_to_five)
unfolding lengths_of window be_value
three_to_five-AreSmall = record {
  small_base = omega arith;
  small_exponent = omega arith;
  small_modulus = omega arith;
}

modexp_run_value_example :
    (out : Bytes) × (modexp_run crates limited three_to_five ≡ returned_bytes out)
    × (length out ≡ 1)
    × (be_value out ≡ 5)
unfolding lengths_of window be_value
modexp_run_value_example =
    modexp_run_value crates limited three_to_five three_to_five-IsByte three_to_five-AreSmall
      (omega arith, omega arith, omega arith) (omega arith)

-- No modulus at all.
abbrev empty_modulus : Bytes
empty_modulus = word 1 ++ word 1 ++ word 0 ++ 3 ∷ 5 ∷ []

empty_modulus-AreSmall : AreSmall (lengths_of empty_modulus)
unfolding lengths_of window be_value
empty_modulus-AreSmall = record {
  small_base = omega arith;
  small_exponent = omega arith;
  small_modulus = omega arith;
}

modexp_run_panics_iff_example :
    (modexp_run crates limited empty_modulus ≡ panic) ↔ ((1 ≤ 1) × ◌≡◌ {A = ℕ} 0 0)
unfolding lengths_of window be_value
modexp_run_panics_iff_example =
    modexp_run_panics_iff crates limited empty_modulus (are_bytes-IsByte empty_modulus refl)
      empty_modulus-AreSmall (omega arith, omega arith, omega arith)

modexp_gas-eip2565_example : modexp_gas crates limited three_to_five ≡ some (eip2565_price 1 2)
unfolding lengths_of window be_value bits_of
modexp_gas-eip2565_example =
    modexp_gas-eip2565 crates limited refl three_to_five three_to_five-IsByte three_to_five-AreSmall
      (omega arith) (inr (omega arith))

-- One of two bytes of the exponent.
abbrev cut_exponent : Bytes
cut_exponent = word 1 ++ word 2 ++ word 1 ++ 3 ∷ 5 ∷ []

cut_exponent-AreSmall : AreSmall (lengths_of cut_exponent)
unfolding lengths_of window be_value
cut_exponent-AreSmall = record {
  small_base = omega arith;
  small_exponent = omega arith;
  small_modulus = omega arith;
}

modexp_gas_panics_iff_example :
    (modexp_gas crates limited cut_exponent ≡ none) ↔ ((1 < 2) × (2 < 1 + min 2 32))
unfolding lengths_of window be_value
modexp_gas_panics_iff_example =
    modexp_gas_panics_iff crates limited refl cut_exponent cut_exponent-AreSmall

-- An exponent of 32 + 2^61 bytes, in the header only.
abbrev huge_exponent : Bytes
huge_exponent = word 1 ++ (replicate 24 0 ++ 32 ∷ replicate 6 0 ++ 32 ∷ []) ++ word 1

huge_exponent-AreSmall : AreSmall (lengths_of huge_exponent)
unfolding lengths_of window be_value
huge_exponent-AreSmall = record {
  small_base = omega arith;
  small_exponent = omega arith;
  small_modulus = omega arith;
}

modexp_gas_wraps_example : modexp_gas crates limited huge_exponent ≡ some (eip2565_price 1 0)
unfolding lengths_of window be_value
modexp_gas_wraps_example =
    modexp_gas_wraps crates limited refl huge_exponent 1 huge_exponent-AreSmall (omega arith)
      (omega arith)
