-- ===== src/Precompile/ModExp.antt =====
-- `PrecompileBigModExp` of src/precompile.rs: its price and its run. usize arithmetic wraps at 2^64.
pub mod Windows
pub mod Fill
pub mod Run
pub mod Price
pub mod Head
pub mod Gas
use evm_executor_rs.Base.{
  ℕ, zero, suc, ◌+◌, ◌-◌, ◌*◌, ◌%◌, Bool, Option, none, some, List, [], ◌∷◌, ◌++◌, length, drop,
  max, min, ltb, leb, ◌==◌, ◌&&◌, ◌||◌, if◌then◌else◌, add_u64, u64_mod, Outcome, ok, err, panic,
}
use evm_executor_rs.Base.Options.{◌>>=◌}
use evm_executor_rs.Base.Options.Results
use evm_executor_rs.Base.Options.Results.{unwrap}
use evm_executor_rs.Base.Bytes.{slice, byte_at, replicate}
use evm_executor_rs.External.Traits.{Bytes}
use evm_executor_rs.External.Uint.{Uint, UintBytes}
use evm_executor_rs.External.BigUint.{BigUint}
use evm_executor_rs.Precompile.Contract.{
  Crates, PrecompiledContract, PrecompileFailure, PrecompileResult, returned_bytes, exit_error,
}

pub record PrecompileBigModExp : Type 0 where
  pub eip2565 : Bool
  pub length_limit : Option ℕ

-- The turns of `while data.len() < 32 * 3 { data.push(0); }`.
unfoldable pub push_zeros : ℕ → Bytes → Bytes
push_zeros zero xs = xs
push_zeros (suc n) xs = push_zeros n (xs ++ 0 ∷ [])

unfoldable pub padded : Bytes → Bytes
unfolding push_zeros
padded input = push_zeros (96 - length input) input

-- The lengths of base, exponent and modulus.
pub record Lengths : Type 0 where
  pub base : ℕ
  pub exponent : ℕ
  pub modulus : ℕ

module _ (u : UintBytes) where
  -- `U256::from(&data[from..from + 32]).as_usize()`
  unfoldable pub read_length : Bytes → ℕ → Option ℕ
  read_length xs from = slice xs from (from + 32) >>= λ word. u.as_u64 (u.from_slice word)

  unfoldable pub read_lengths : Bytes → Option Lengths
  unfolding padded read_length
  read_lengths input = do
    let xs = padded input
    base ← read_length xs 0
    exponent ← read_length xs 32
    modulus ← read_length xs 64
    some (record { base = base; exponent = exponent; modulus = modulus })

  -- The first bytes of the exponent, 32 at most; nothing of it if the input ends before.
  unfoldable pub exp_head : Bytes → Lengths → Option ℕ
  exp_head input l =
      if leb (length input) l.base
      then some 0
      else if ltb 32 l.exponent
      then (slice input l.base (l.base + 32) >>= λ word. some (u.from_slice word))
      else (slice input l.base (l.base + l.exponent) >>= λ word. some (u.from_slice word))

  -- `adj_exp_len`, on usize.
  unfoldable pub adjusted_length : ℕ → ℕ → ℕ
  adjusted_length exp_len head =
      let msb = u.bits head - 1 in
      add_u64 (if ltb 32 exp_len then (exp_len - 32) * 8 % u64_mod else 0) msb

-- At least 200, and at most what fits in 64 bits.
unfoldable pub capped : UintBytes → ℕ → Option ℕ
capped u gas =
    if ltb 64 (u.bits gas)
    then some (u64_mod - 1)
    else if ltb gas 200
    then some 200
    else u.as_u64 gas

-- The price behind the adjusted length, on U256.
unfoldable pub modexp_price : Uint → UintBytes → ℕ → ℕ → Option ℕ
unfolding capped
modexp_price v u size adj_exp_len = do
  gas ← v.add size 7
  gas ← v.div gas 8
  gas ← v.mul gas gas
  gas ← v.mul gas (max adj_exp_len 1)
  gas ← v.div gas 3
  capped u gas

-- `result.insert(0, 0)` while the result is shorter than the modulus.
unfoldable pub insert_zeros : ℕ → Bytes → Bytes
insert_zeros zero xs = xs
insert_zeros (suc n) xs = insert_zeros n (0 ∷ xs)

-- `for i in 0..count`: the byte at `pos + i`, or 0 beyond the end.
unfoldable pub read_array : ℕ → Bytes → ℕ → Bytes
read_array zero xs pos = []
read_array (suc count) xs pos =
    (if leb (length xs) pos then 0 else byte_at xs pos) ∷ read_array count xs (pos + 1)

module _ (c : Crates) (self : PrecompileBigModExp) where
  -- Without EIP-2565 the price is unimplemented.
  unfoldable pub modexp_gas : Bytes → Option ℕ
  unfolding read_lengths exp_head adjusted_length modexp_price
  modexp_gas input = do
    l ← read_lengths c.uint_bytes input
    head ← exp_head c.uint_bytes (drop 96 input) l
    let adj_exp_len = adjusted_length c.uint_bytes l.exponent head
    let size = max l.modulus l.base
    if self.eip2565 then modexp_price c.uint c.uint_bytes size adj_exp_len else none

  abbrev exceeds : Option ℕ → Lengths → Bool
  exceeds none l = Bool.false
  exceeds (some limit) l = ltb limit l.base || ltb limit l.exponent || ltb limit l.modulus

  -- `modulus.is_zero() || modulus.is_one()`, or `modpow`
  unfoldable pub power : ℕ → ℕ → ℕ → Bytes
  power base exponent modulus =
      if modulus == 0 || modulus == 1
      then c.big_uint.to_bytes_be 0
      else c.big_uint.to_bytes_be (c.big_uint.modpow base exponent modulus)

  -- The assertion on the length, and the zeros in front.
  unfoldable pub fill : ℕ → Bytes → PrecompileResult
  unfolding insert_zeros
  fill size result =
      if leb (length result) size
      then returned_bytes (insert_zeros (size - length result) result)
      else panic

  unfoldable pub modexp_power : Bytes → Lengths → PrecompileResult
  unfolding read_array power fill
  modexp_power xs l =
      let base = c.big_uint.from_bytes_be (read_array l.base xs 96) in
      let exponent = c.big_uint.from_bytes_be (read_array l.exponent xs (96 + l.base)) in
      let modulus = c.big_uint.from_bytes_be (read_array l.modulus xs (96 + l.base + l.exponent)) in
      fill l.modulus (power base exponent modulus)

  -- Behind the lengths.
  unfoldable pub modexp_checked : Bytes → Lengths → PrecompileResult
  unfolding exit_error
  modexp_checked input l =
      if exceeds self.length_limit l
      then err (exit_error "input length exceed limitation")
      else if l.base == 0 && l.modulus == 0
      then returned_bytes []
      else modexp_power (padded input) l

  unfoldable pub modexp_run : Bytes → PrecompileResult
  unfolding read_lengths
  modexp_run input = Results.◌>>=◌ (unwrap (read_lengths c.uint_bytes input)) (modexp_checked input)

  abbrev pub big_mod_exp : PrecompiledContract
  big_mod_exp = record { required_gas = modexp_gas; run = modexp_run }
