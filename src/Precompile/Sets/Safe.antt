-- ===== src/Precompile/Sets/Safe.antt =====
-- The contracts whose price and run never panic on bytes.
use evm_executor_rs.Base.{
  Option-cases, ◌++◌, ◌∷◌, [], ℕ, ◌≡◌, ◌≢◌, refl, Bool-cases, inl, inr, Option, some, arith, ◌==◌,
  ==_iff, panic, length,
}
use evm_executor_rs.Base.Bytes.{All, IsByte, slice_within}
use evm_executor_rs.Base.Bytes.Windows.{window}
use evm_executor_rs.External.Traits.{Bytes}
use evm_executor_rs.External.Hashes.{Hashes, HashesLaws}
use evm_executor_rs.External.Bn.{Bn, BnLaws}
use evm_executor_rs.Precompile.Contract.{Crates, PrecompiledContract}
use evm_executor_rs.Precompile.Simple.{revert, data_copy, sha256_hash, ripemd_word, ripemd160_hash}
use evm_executor_rs.Precompile.Blake2fContract.{rounds_of, blake2f_gas, blake2f_run, blake2f}
use evm_executor_rs.Precompile.Blake2fContract.Total.{blake2f_run_total}
use evm_executor_rs.Precompile.Ecrecover.{ecrecover}
use evm_executor_rs.Precompile.Ecrecover.Value.{IsSignature, v_of, ecrecover_run_value}
use evm_executor_rs.Precompile.Curve.{pair_gas, pair_istanbul}
use evm_executor_rs.Precompile.Curve.Pairing.{pair_run_value}

-- Neither the price nor the run of a contract panics on bytes.
pub record IsSafe (p : PrecompiledContract) : Type 0 where
  pub priced : (input : Bytes) → All IsByte input → (gas : ℕ) × (p.required_gas input ≡ some gas)
  pub runs : (input : Bytes) → All IsByte input → p.run input ≢ panic

pub revert-IsSafe : IsSafe revert
revert-IsSafe = record {
  priced = λ input bytes. (1_000_000_000, refl);
  runs = λ input bytes e. ground (arith, e);
}

pub data_copy-IsSafe : IsSafe data_copy
data_copy-IsSafe = record {
  priced = λ input bytes. (_, refl);
  runs = λ input bytes e. ground (arith, e);
}

-- A digest is no panic.
blake2f_run_safe : (input : Bytes) → All IsByte input → blake2f_run input ≢ panic
blake2f_run_safe input bytes e = elim (blake2f_run_total input bytes) [
  | inl (_, r) ↦ absurd (ground (arith, r, e))
  | inr (inl (_, _, _, _, r)) ↦ absurd (ground (arith, r, e))
  | inr (inr (_, _, _, _, (_, r, _, _))) ↦ absurd (ground (arith, r, e))
]

blake2f_gas_total : (input : Bytes) → (gas : ℕ) × (blake2f_gas input ≡ some gas)
unfolding blake2f_gas rounds_of
blake2f_gas_total input = elim (Bool-cases (length input == 213)) [
  | inl same ↦
      let size = (==_iff (length input) 213).0 same in
      rw (same, slice_within input 0 4 (omega arith) (omega (arith, size))) (_, refl)
  | inr other ↦ rw other (0, refl)
]

pub blake2f-IsSafe : IsSafe blake2f
blake2f-IsSafe = record { priced = λ input bytes. blake2f_gas_total input; runs = blake2f_run_safe }

pub sha256_hash-IsSafe : (hashes : Hashes) → IsSafe (sha256_hash hashes)
sha256_hash-IsSafe hashes = record {
  priced = λ input bytes. (_, refl);
  runs = λ input bytes e. ground (arith, e);
}

pub ripemd160_hash-IsSafe : (hashes : Hashes) → HashesLaws hashes → IsSafe (ripemd160_hash hashes)
unfolding ripemd_word
ripemd160_hash-IsSafe hashes laws = record {
  priced = λ input bytes. (_, refl);
  runs = λ input bytes e. absurd (ground (arith, laws.length-ripemd160 input, e));
}

pub pair_istanbul-IsSafe :
    (bn : Bn) → BnLaws bn → (limit : Option ℕ) → IsSafe (pair_istanbul bn limit)
unfolding pair_gas
pair_istanbul-IsSafe bn laws limit = record {
  priced = λ input bytes. (_, refl);
  runs = λ input bytes e. elim (pair_run_value bn laws limit input) [
    | inl (_, _, r) ↦ absurd (ground (arith, r, e))
    | inr (_, _, r) ↦ absurd (ground (arith, r, e))
  ];
}

module _ (c : Crates) where
  pub ecrecover-IsSafe : IsSafe (ecrecover c)
  ecrecover-IsSafe = record {
    priced = λ input bytes. (3000, refl);
    runs = λ input bytes e.
        let (lost, found, invalid) = ecrecover_run_value c input bytes in
        let o =
          c.hashes.ecdsa_recover (window 64 input 64 ++ v_of input ∷ []) (window 32 input 0) in
        let unsigned : IsSignature input → ⊥ = λ h. elim (Option-cases o) [
          | inl none_found ↦ ground (arith, lost h none_found, e)
          | inr (key, k) ↦ ground (arith, found key h k, e)
        ] in
        ground (arith, invalid unsigned, e);
  }
