-- ===== src/Precompile/Ecrecover.antt =====
-- `PrecompileEcrecover` of src/precompile.rs.
pub mod Sized
pub mod Value
use evm_executor_rs.Base.{
  ℕ, ◌-◌, Bool, true, false, Option, none, some, List, [], ◌∷◌, ◌++◌, length, take, drop, min, ltb,
  leb, ◌==◌, ◌&&◌, ◌||◌, not, if◌then◌else◌, get_elem?, Outcome, ok, panic,
}
use evm_executor_rs.Base.Options.{◌>>=◌}
use evm_executor_rs.Base.Options.Results
use evm_executor_rs.Base.Options.Results.{unwrap}
use evm_executor_rs.Base.Bytes.{slice, replicate}
use evm_executor_rs.External.Traits.{Bytes}
use evm_executor_rs.Precompile.Contract.{
  Crates, PrecompiledContract, PrecompileResult, returned_bytes,
}

unfoldable pub secp256k1n : ℕ
secp256k1n = 115792089237316195423570985008687907852837564279074904382605163141518161494337

-- `input[..n].copy_from_slice(&i[..n])` into zeros, `n` the smaller of the length and 128.
unfoldable pub sized : Bytes → Bytes
sized i = let n = min (length i) 128 in take n i ++ replicate (128 - n) 0

-- `iter().any(|i| i != &0)`
abbrev pub any_nonzero : Bytes → Bool
any_nonzero [] = false
any_nonzero (x ∷ xs) = not (x == 0) || any_nonzero xs

-- What the input is cut into.
pub record Parts : Type 0 where
  pub msg : Bytes
  pub r_bytes : Bytes
  pub s_bytes : Bytes
  pub v : ℕ
  -- `input[32..63]`
  pub zeros : Bytes

unfoldable pub parts : Bytes → Option Parts
parts input = do
  msg ← slice input 0 32
  r_bytes ← slice input 64 96
  s_bytes ← slice input 96 128
  v ← get_elem? input 63
  zeros ← slice input 32 63
  some (record { msg = msg; r_bytes = r_bytes; s_bytes = s_bytes; v = v; zeros = zeros })

module _ (c : Crates) where
  -- `address[0..12].copy_from_slice(&[0u8; 12])`
  abbrev pub address_of : Option Bytes → Bytes
  address_of none = []
  address_of (some pubkey) = replicate 12 0 ++ drop 12 (c.hashes.keccak_hash pubkey)

  unfoldable pub recover_parts : Parts → Bytes
  unfolding secp256k1n
  recover_parts p =
      let r = c.uint_bytes.from_slice p.r_bytes in
      let s = c.uint_bytes.from_slice p.s_bytes in
      if any_nonzero p.zeros
      then []
      else if r == 0 || s == 0
      then []
      else if leb secp256k1n r || leb secp256k1n s || (not (p.v == 27) && not (p.v == 28))
      then []
      else address_of (c.hashes.ecdsa_recover (p.r_bytes ++ p.s_bytes ++ p.v ∷ []) p.msg)

  unfoldable pub ecrecover_run : Bytes → PrecompileResult
  unfolding sized parts recover_parts
  ecrecover_run input =
      Results.◌>>=◌ (unwrap (parts (sized input))) λ p. returned_bytes (recover_parts p)

  abbrev pub ecrecover : PrecompiledContract
  ecrecover = record { required_gas = λ input. some 3000; run = ecrecover_run }
