-- ===== src/Precompile/Contract.antt =====
-- The trait `PrecompiledContract`, what its methods return, and the calculation of gas by words.
use evm_executor_rs.Base.{ℕ, ◌*◌, ◌/◌, ◌%◌, Option, length, Outcome, ok, u64_mod, add_u64}
use Prim.Native.String.{String}
use evm_executor_rs.External.Traits.{Bytes}
use evm_executor_rs.External.Uint.{Uint, UintBytes}
use evm_executor_rs.External.BigUint.{BigUint}
use evm_executor_rs.External.Hashes.{Hashes}
use evm_executor_rs.External.Bn.{Bn}

-- Of the crate `evm`: the ways to succeed, the errors that matter here, and the fatal ones.
pub data ExitSucceed : Type 0 where
  stopped : ExitSucceed
  returned : ExitSucceed
  suicided : ExitSucceed

pub data ExitError : Type 0 where
  out_of_gas : ExitError
  other : String → ExitError

pub data ExitFatal : Type 0 where
  not_supported : ExitFatal
  other : String → ExitFatal

pub record PrecompileOutput : Type 0 where
  pub exit_status : ExitSucceed
  pub output : Bytes

pub data PrecompileFailure : Type 0 where
  error : ExitError → PrecompileFailure
  fatal : ExitFatal → PrecompileFailure

abbrev pub PrecompileResult : Type 0
PrecompileResult = Outcome PrecompileFailure PrecompileOutput

abbrev pub returned_bytes : Bytes → PrecompileResult
returned_bytes output = ok (record { exit_status = returned; output = output })

unfoldable pub exit_error : String → PrecompileFailure
exit_error val = error (ExitError.other val)

-- What the contracts take from other crates.
pub record Crates : Type 1 where
  pub uint : Uint
  pub uint_bytes : UintBytes
  pub big_uint : BigUint
  pub hashes : Hashes
  pub bn : Bn

-- `none` is a panic of `required_gas`.
pub record PrecompiledContract : Type 0 where
  pub required_gas : Bytes → Option ℕ
  pub run : Bytes → PrecompileResult

abbrev mul_u64 : ℕ → ℕ → ℕ
mul_u64 a b = a * b % u64_mod

unfoldable pub calculate_gas : Bytes → ℕ → ℕ → ℕ
calculate_gas input per_word_gas base_gas =
    add_u64 (mul_u64 (add_u64 (length input) 31 / 32) per_word_gas) base_gas
