-- ===== src/Precompile/Simple.antt =====
-- The contracts that do little: the unimplemented one, the disabled one, the hashes and the copy.
use evm_executor_rs.Base.{some, ◌++◌, length, ◌==◌, if◌then◌else◌, err, panic}
use evm_executor_rs.Base.Bytes.{replicate}
use evm_executor_rs.External.Traits.{Bytes}
use evm_executor_rs.External.Hashes.{Hashes}
use evm_executor_rs.Precompile.Contract.{
  PrecompiledContract, PrecompileResult, returned_bytes, calculate_gas, fatal, not_supported,
  ExitFatal,
}

-- `PrecompileUnimplemented`; its address is only logged.
abbrev pub unimplemented : PrecompiledContract
unimplemented = record { required_gas = λ input. some 0; run = λ input. err (fatal not_supported) }

-- `PrecompileRevert`
abbrev pub revert : PrecompiledContract
revert = record {
  required_gas = λ input. some 1_000_000_000;
  run = λ input. err (fatal (ExitFatal.other "DISABLED"));
}

-- `PrecompileDataCopy`
abbrev pub data_copy : PrecompiledContract
data_copy = record {
  required_gas = λ input. some (calculate_gas input 3 15);
  run = λ input. returned_bytes input;
}

module _ (hashes : Hashes) where
  -- `PrecompileSha256Hash`
  abbrev pub sha256_hash : PrecompiledContract
  sha256_hash = record {
    required_gas = λ input. some (calculate_gas input 12 60);
    run = λ input. returned_bytes (hashes.sha256_sum input);
  }

  -- `val[12..].copy_from_slice(&output[..])` panics unless the digest has 20 bytes.
  unfoldable pub ripemd_word : Bytes → PrecompileResult
  ripemd_word output =
      if length output == 20 then returned_bytes (replicate 12 0 ++ output) else panic

  -- `PrecompileRipemd160Hash`
  abbrev pub ripemd160_hash : PrecompiledContract
  ripemd160_hash = record {
    required_gas = λ input. some (calculate_gas input 120 600);
    run = λ input. ripemd_word (hashes.ripemd160 input);
  }
