-- ===== src/Precompile/Curve.antt =====
-- The contracts for the curve of the crate `bn`: `PrecompileAddIstanbul`, `PrecompileMulIstanbul`
-- and `PrecompilePairIstanbul` of src/precompile.rs.
pub mod Points
pub mod Pairing
use evm_executor_rs.Base.{
  ℕ, zero, suc, ◌+◌, ◌-◌, ◌*◌, ◌/◌, ◌%◌, Bool, Option, none, some, List, [], ◌∷◌, ◌++◌, length,
  take, ltb, leb, ◌==◌, ◌&&◌, if◌then◌else◌, u64_mod, add_u64, Outcome, ok, err, panic,
}
use Prim.Native.String.{String}
use evm_executor_rs.Base.Options
use evm_executor_rs.Base.Options.Results.{◌>>=◌, unwrap}
use evm_executor_rs.Base.Bytes.{slice, replicate}
use evm_executor_rs.External.Traits.{Bytes}
use evm_executor_rs.External.Bn.{Bn}
use evm_executor_rs.Precompile.Contract.{
  PrecompiledContract, PrecompileFailure, PrecompileResult, returned_bytes, exit_error,
}

abbrev pub pair_element_len : ℕ
pair_element_len = 192

-- `input.resize(size, 0)`
unfoldable pub resize : ℕ → Bytes → Bytes
resize size input =
    if leb (length input) size then input ++ replicate (size - length input) 0 else take size input

-- The word of 32 bytes for 1 or 0.
abbrev pub bit_word : Bool → Bytes
bit_word b = replicate 31 0 ++ (if b then 1 else 0) ∷ []

module _ (bn : Bn) where
  -- `Fq::from_slice(&input[pos..pos + 32])`; `none` for a failure, too.
  abbrev unwrap_fq : Bytes → ℕ → Option bn.Fq
  unwrap_fq input pos = Options.◌>>=◌ (slice input pos (pos + 32)) bn.fq_from_slice

  unfoldable pub read_point : Bytes → ℕ → Option bn.G1
  read_point input pos = Options.◌>>=◌ (unwrap_fq input pos) λ px.
      Options.◌>>=◌ (unwrap_fq input (pos + 32)) λ py.
        if bn.fq_eq px bn.fq_zero && bn.fq_eq py bn.fq_zero
        then some bn.g1_zero
        else bn.affine_g1 px py

  -- The two coordinates, or 64 zeros for the point at infinity.
  abbrev pub point_bytes : (bn.Fq → Option Bytes) → Option (bn.Fq × bn.Fq) → Option Bytes
  point_bytes write none = some (replicate 64 0)
  point_bytes write (some (x, y)) =
      Options.◌>>=◌ (write x) λ bx. Options.◌>>=◌ (write y) λ by'. some (bx ++ by')

  unfoldable pub add_run : Bytes → PrecompileResult
  unfolding resize read_point
  add_run input = do
    let xs = resize 128 input
    p1 ← unwrap (read_point xs 0)
    p2 ← unwrap (read_point xs 64)
    output ← unwrap (point_bytes bn.into_u256_bytes (bn.from_jacobian (bn.g1_add p1 p2)))
    returned_bytes output

  abbrev pub add_istanbul : PrecompiledContract
  add_istanbul = record { required_gas = λ input. some 150; run = add_run }

  unfoldable pub mul_run : Bytes → PrecompileResult
  unfolding resize read_point
  mul_run input = do
    let xs = resize 128 input
    p ← unwrap (read_point xs 0)
    fr_buf ← unwrap (slice xs 64 96)
    fr ← unwrap (bn.fr_from_slice fr_buf)
    output ← unwrap (point_bytes bn.fq_bytes (bn.from_jacobian (bn.g1_mul p fr)))
    returned_bytes output

  abbrev pub mul_istanbul : PrecompiledContract
  mul_istanbul = record { required_gas = λ input. some 6000; run = mul_run }

  -- `map_err(|_| exit_error(..))`
  abbrev or_error : {A : Type 0} → Option A → String → Outcome PrecompileFailure A
  unfolding exit_error
  or_error none val = err (exit_error val)
  or_error (some a) val = ok a

  -- A coordinate of a pair; the slice panics beyond the end.
  unfoldable pub read_fq : Bytes → ℕ → String → Outcome PrecompileFailure bn.Fq
  unfolding exit_error
  read_fq input pos val =
      unwrap (slice input pos (pos + 32)) >>= λ buf. or_error (bn.fq_from_slice buf) val

  unfoldable pub pair_g1 : bn.Fq → bn.Fq → Outcome PrecompileFailure bn.G1
  unfolding exit_error
  pair_g1 ax ay =
      if bn.fq_is_zero ax && bn.fq_is_zero ay
      then ok bn.g1_zero
      else or_error (bn.affine_g1 ax ay) "Invalid a argument - not on curve"

  unfoldable pub pair_g2 : bn.Fq2 → bn.Fq2 → Outcome PrecompileFailure bn.G2
  unfolding exit_error
  pair_g2 ba bb =
      if bn.fq2_is_zero ba && bn.fq2_is_zero bb
      then ok bn.g2_zero
      else or_error (bn.affine_g2 ba bb) "Invalid a argument - not on curve"

  -- The pair of points that starts at a position.
  unfoldable pub read_pair : Bytes → ℕ → Outcome PrecompileFailure (bn.G1 × bn.G2)
  unfolding read_fq pair_g1 pair_g2
  read_pair input pos = do
    ax ← read_fq input pos "Invalid a argument x coordinate"
    ay ← read_fq input (pos + 32) "Invalid a argument y coordinate"
    bay ← read_fq input (pos + 64) "Invalid b argument imaginary coeff y coordinate"
    bax ← read_fq input (pos + 96) "Invalid b argument imaginary coeff x coordinate"
    bby ← read_fq input (pos + 128) "Invalid b argument real coeff y coordinate"
    bbx ← read_fq input (pos + 160) "Invalid b argument real coeff x coordinate"
    a ← pair_g1 ax ay
    b ← pair_g2 (bn.fq2_new bax bay) (bn.fq2_new bbx bby)
    ok (a, b)

  -- `for idx in 0..elements`, from an index on, with a number of elements to go.
  unfoldable pub read_pairs : ℕ → Bytes → ℕ → Outcome PrecompileFailure (List (bn.G1 × bn.G2))
  read_pairs zero input idx = ok []
  read_pairs (suc n) input idx = read_pair input (idx * pair_element_len) >>= λ pair.
      read_pairs n input (idx + 1) >>= λ vals. ok (pair ∷ vals)

  -- `fold(Gt::one(), |s, (a, b)| s * bn::pairing(a, b))`
  abbrev pub fold_pairs : bn.Gt → List (bn.G1 × bn.G2) → bn.Gt
  fold_pairs s [] = s
  fold_pairs s ((a, b) ∷ vals) = fold_pairs (bn.gt_mul s (bn.pairing a b)) vals

  -- An empty list has the product one, without a comparison.
  unfoldable pub pair_output : Bytes → Outcome PrecompileFailure Bool
  unfolding read_pairs
  pair_output input =
      if length input == 0
      then ok Bool.true
      else (read_pairs (length input / pair_element_len) input 0 >>= λ vals.
          ok (bn.gt_eq (fold_pairs bn.gt_one vals) bn.gt_one))

  abbrev pub exceeds_pairs : Option ℕ → Bytes → Bool
  exceeds_pairs none input = Bool.false
  exceeds_pairs (some max_input_num) input = ltb (max_input_num * pair_element_len) (length input)

  module _ (max_input_num : Option ℕ) where
    unfoldable pub pair_run : Bytes → PrecompileResult
    unfolding pair_output exit_error
    pair_run input =
        if exceeds_pairs max_input_num input
        then err (exit_error "bad elliptic curve pairing size, the input num exceed limitation")
        else if length input % pair_element_len == 0
        then (pair_output input >>= λ output. returned_bytes (bit_word output))
        else err (exit_error "bad elliptic curve pairing size")

    unfoldable pub pair_gas : Bytes → ℕ
    pair_gas input = add_u64 45000 (length input / 192 * 34000 % u64_mod)

    abbrev pub pair_istanbul : PrecompiledContract
    unfolding pair_gas
    pair_istanbul = record { required_gas = λ input. some (pair_gas input); run = pair_run }
