-- ===== src/External/Hashes.antt =====
-- The hash functions and the signature recovery that the precompiled contracts call, and the sizes
-- of what they return.
use evm_executor_rs.Base.{◌≡◌, Option, length}
use evm_executor_rs.External.Traits.{Bytes}

pub record Hashes : Type 0 where
  pub keccak_hash : Bytes → Bytes
  pub sha256_sum : Bytes → Bytes
  -- `Ripemd160::digest`
  pub ripemd160 : Bytes → Bytes
  -- `secp256k1_ecdsa_recover`, of a signature and a message
  pub ecdsa_recover : Bytes → Bytes → Option Bytes

pub record HashesLaws (c : Hashes) : Type 0 where
  pub length-keccak_hash : (xs : Bytes) → length (c.keccak_hash xs) ≡ 32
  pub length-sha256_sum : (xs : Bytes) → length (c.sha256_sum xs) ≡ 32
  pub length-ripemd160 : (xs : Bytes) → length (c.ripemd160 xs) ≡ 20
