-- ===== src/Precompile/Blake2fContract.antt =====
-- `PrecompileBlake2F` of src/precompile.rs: reading its input and writing its output.
pub mod Total
use evm_executor_rs.Base.{
  ℕ, zero, suc, ◌+◌, Bool, true, false, Option, none, some, List, [], ◌∷◌, ◌++◌, length, get_elem?,
  ◌==◌, if◌then◌else◌, not, Outcome, ok, err, panic,
}
use evm_executor_rs.Base.Options
use evm_executor_rs.Base.Options.Results.{◌>>=◌, unwrap}
use evm_executor_rs.Base.Bytes.{be_value, le_value, le_bytes, slice}
use evm_executor_rs.External.Traits.{Bytes}
use evm_executor_rs.Precompile.Contract.{
  PrecompiledContract, PrecompileFailure, PrecompileResult, returned_bytes, exit_error,
}
use evm_executor_rs.Precompile.Blake2f.{compress}

-- `u32::from_be_bytes(input[..4])`
unfoldable pub rounds_of : Bytes → Option ℕ
unfolding be_value
rounds_of input = Options.◌>>=◌ (slice input 0 4) (λ val. some (be_value val))

unfoldable pub blake2f_gas : Bytes → Option ℕ
unfolding rounds_of
blake2f_gas input = if length input == 213 then rounds_of input else some 0

-- `u64::from_le_bytes(input[pos..pos + 8])`
unfoldable pub read_word : Bytes → ℕ → Option ℕ
unfolding le_value
read_word input pos = Options.◌>>=◌ (slice input pos (pos + 8)) (λ val. some (le_value val))

-- A number of words in a row, `step_by(8)`.
unfoldable pub read_words : ℕ → Bytes → ℕ → Option (List ℕ)
unfolding read_word
read_words zero input pos = some []
read_words (suc n) input pos =
    Options.◌>>=◌ (read_word input pos)
      λ word. Options.◌>>=◌ (read_words n input (pos + 8)) λ words. some (word ∷ words)

-- `input[212]`: 1 or 0, or an error.
abbrev flag_of : Option ℕ → Outcome PrecompileFailure Bool
unfolding exit_error
flag_of none = panic
flag_of (some flag) =
    if flag == 1
    then ok true
    else if flag == 0
    then ok false
    else err (exit_error "Invalid input for blake2f precompile: incorrect final flag")

-- The words in little endian.
unfoldable pub words_bytes : List ℕ → Bytes
unfolding le_bytes
words_bytes [] = []
words_bytes (h ∷ hs) = le_bytes 8 h ++ words_bytes hs

-- Behind the checks of length and flag.
unfoldable pub blake2f_compress : Bytes → Bool → PrecompileResult
unfolding rounds_of read_words words_bytes
blake2f_compress input f = do
  rounds ← unwrap (rounds_of input)
  h ← unwrap (read_words 8 input 4)
  m ← unwrap (read_words 16 input 68)
  t0 ← unwrap (read_word input 196)
  t1 ← unwrap (read_word input 204)
  h' ← unwrap (compress h m t0 t1 f rounds)
  returned_bytes (words_bytes h')

unfoldable pub blake2f_run : Bytes → PrecompileResult
unfolding exit_error
blake2f_run input =
    if length input == 213
    then (flag_of (get_elem? input 212) >>= λ f. blake2f_compress input f)
    else err (exit_error "Invalid input for blake2f precompile: incorrect length")

abbrev pub blake2f : PrecompiledContract
blake2f = record { required_gas = blake2f_gas; run = blake2f_run }
