-- ===== src/Examples/Precompiles.antt =====
-- The precompiled contracts at concrete inputs.
use evm_executor_rs.Base.{
  ℕ, ◌≤◌, ◌<◌, ◌≡◌, ◌≢◌, ◌⊎◌, length, get_elem?, err, refl, some, [], ◌∷◌, ◌++◌,
}
use evm_executor_rs.Base.Bytes.{replicate}
use evm_executor_rs.External.Traits.{Bytes}
use evm_executor_rs.Precompile.Contract.{returned_bytes, exit_error}
use evm_executor_rs.Precompile.Blake2f.{
  sigma, g, mix, round, run_rounds, finish, compress, add_three, add_two, xor_rotate, set,
}
use evm_executor_rs.Precompile.Blake2fContract.{blake2f_gas, blake2f_run, blake2f_compress}
use evm_executor_rs.Precompile.Blake2fContract.Total.{IsDigest, blake2f_run_total}
use evm_executor_rs.Examples.Crates.{are_bytes-IsByte}

-- The fifth test vector of EIP-152, the hash of "abc".
abbrev abc_input : Bytes
abc_input =
    0x00
    ∷ 0x00
    ∷ 0x00
    ∷ 0x0c
    ∷ 0x48
    ∷ 0xc9
    ∷ 0xbd
    ∷ 0xf2
    ∷ 0x67
    ∷ 0xe6
    ∷ 0x09
    ∷ 0x6a
    ∷ 0x3b
    ∷ 0xa7
    ∷ 0xca
    ∷ 0x84
    ∷ 0x85
    ∷ 0xae
    ∷ 0x67
    ∷ 0xbb
    ∷ 0x2b
    ∷ 0xf8
    ∷ 0x94
    ∷ 0xfe
    ∷ 0x72
    ∷ 0xf3
    ∷ 0x6e
    ∷ 0x3c
    ∷ 0xf1
    ∷ 0x36
    ∷ 0x1d
    ∷ 0x5f
    ∷ 0x3a
    ∷ 0xf5
    ∷ 0x4f
    ∷ 0xa5
    ∷ 0xd1
    ∷ 0x82
    ∷ 0xe6
    ∷ 0xad
    ∷ 0x7f
    ∷ 0x52
    ∷ 0x0e
    ∷ 0x51
    ∷ 0x1f
    ∷ 0x6c
    ∷ 0x3e
    ∷ 0x2b
    ∷ 0x8c
    ∷ 0x68
    ∷ 0x05
    ∷ 0x9b
    ∷ 0x6b
    ∷ 0xbd
    ∷ 0x41
    ∷ 0xfb
    ∷ 0xab
    ∷ 0xd9
    ∷ 0x83
    ∷ 0x1f
    ∷ 0x79
    ∷ 0x21
    ∷ 0x7e
    ∷ 0x13
    ∷ 0x19
    ∷ 0xcd
    ∷ 0xe0
    ∷ 0x5b
    ∷ 0x61
    ∷ 0x62
    ∷ 0x63
    ∷ (replicate 125 0
        ++ (0x03 ∷ 0x00 ∷ 0x00 ∷ 0x00 ∷ 0x00 ∷ 0x00 ∷ 0x00 ∷ 0x00 ∷ 0x00 ∷ 0x00 ∷ 0x00 ∷ 0x00 ∷ 0x00
            ∷ 0x00 ∷ 0x00 ∷ 0x00 ∷ 0x01 ∷ []))

abbrev abc_output : Bytes
abc_output =
    0xba ∷ 0x80 ∷ 0xa5 ∷ 0x3f ∷ 0x98 ∷ 0x1c ∷ 0x4d ∷ 0x0d ∷ 0x6a ∷ 0x27 ∷ 0x97 ∷ 0xb6 ∷ 0x9f ∷ 0x12
    ∷ 0xf6 ∷ 0xe9 ∷ 0x4c ∷ 0x21 ∷ 0x2f ∷ 0x14 ∷ 0x68 ∷ 0x5a ∷ 0xc4 ∷ 0xb7 ∷ 0x4b ∷ 0x12 ∷ 0xbb
    ∷ 0x6f ∷ 0xdb ∷ 0xff ∷ 0xa2 ∷ 0xd1 ∷ 0x7d ∷ 0x87 ∷ 0xc5 ∷ 0x39 ∷ 0x2a ∷ 0xab ∷ 0x79 ∷ 0x2d
    ∷ 0xc2 ∷ 0x52 ∷ 0xd5 ∷ 0xde ∷ 0x45 ∷ 0x33 ∷ 0xcc ∷ 0x95 ∷ 0x18 ∷ 0xd3 ∷ 0x8a ∷ 0xa8 ∷ 0xdb
    ∷ 0xf1 ∷ 0x92 ∷ 0x5a ∷ 0xb9 ∷ 0x23 ∷ 0x86 ∷ 0xed ∷ 0xd4 ∷ 0x00 ∷ 0x99 ∷ 0x23 ∷ []

abc_gas : blake2f_gas abc_input ≡ some 12
unfolding blake2f_gas
abc_gas = refl

abc_hashed : blake2f_run abc_input ≡ returned_bytes abc_output
unfolding blake2f_run blake2f_compress compress sigma g mix round run_rounds finish add_three
    add_two xor_rotate set
abc_hashed = refl

blake2f_run_total_example :
    ((length abc_input ≢ 213)
      × (blake2f_run abc_input
          ≡ err (exit_error "Invalid input for blake2f precompile: incorrect length")))
    ⊎ (((length abc_input ≡ 213)
          × (flag : ℕ) × (get_elem? abc_input 212 ≡ some flag)
          × (1 < flag)
          × (blake2f_run abc_input
              ≡ err (exit_error "Invalid input for blake2f precompile: incorrect final flag")))
        ⊎ ((length abc_input ≡ 213)
            × (flag : ℕ) × (get_elem? abc_input 212 ≡ some flag)
            × (flag ≤ 1)
            × IsDigest (blake2f_run abc_input)))
blake2f_run_total_example = blake2f_run_total abc_input (are_bytes-IsByte abc_input refl)
