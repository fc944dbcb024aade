-- ===== src/External/Crypto.antt =====
-- What the proofs of execution take from the crates `crypto` and `solidity`: a hash over chunks,
-- recoverable signatures of 65 bytes, and the encoder of Solidity arguments; and their laws.
use evm_executor_rs.Base.{ℕ, ◌≡◌, List, [], ◌∷◌, ◌++◌, length}
use evm_executor_rs.External.Traits.{Address, Hash, Bytes}

-- An argument that is added to an encoder: a word of 32 bytes, or bytes of any length.
pub data Arg : Type 0 where
  word : ℕ → Arg
  bytes : Bytes → Arg

pub record Crypto : Type 1 where
  pub PrivateKey : Type 0
  -- `crypto::keccak_hash`
  pub keccak_hash : Bytes → Hash
  -- `crypto::keccak_encode`, with the chunks that the closure feeds
  pub keccak_encode : List Bytes → Hash
  -- the bytes `.0` of a hash
  pub hash_bytes : Hash → Bytes
  -- `sign`, then `to_array`
  pub sign : PrivateKey → Bytes → Bytes
  -- `secp256k1_recover_pubkey`, then `eth_accountid`
  pub recover_account : Bytes → Bytes → Address
  -- `Encoder::new("")`, `add` of each argument, `encode`
  pub encode : List Arg → Bytes

pub record CryptoLaws (c : Crypto) : Type 0 where
  pub account : c.PrivateKey → Address
  pub length-sign : (k : c.PrivateKey) (msg : Bytes) → length (c.sign k msg) ≡ 65
  pub recover-sign :
      (k : c.PrivateKey) (msg : Bytes) → c.recover_account (c.sign k msg) msg ≡ account k
  -- Behind the same arguments, different bytes are encoded differently.
  pub encode_bytes-inj :
      (args : List Arg) (xs ys : Bytes)
      → c.encode (args ++ bytes xs ∷ []) ≡ c.encode (args ++ bytes ys ∷ [])
      → xs ≡ ys
