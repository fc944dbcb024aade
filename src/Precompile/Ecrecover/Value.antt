-- ===== src/Precompile/Ecrecover/Value.antt =====
-- What `PrecompileEcrecover::run` returns, for the words of its input.
use evm_executor_rs.Base.{
  ℕ, ◌+◌, ◌*◌, ◌≤◌, ◌<◌, ◌≡◌, refl, ap, ◌∙◌, ◌⊎◌, ◌-◌, ◌^◌, Option, none, some, drop, Bool, true,
  false, [], ◌∷◌, ◌++◌, arith, leb, ◌==◌, ◌&&◌, ◌||◌, not, if◌then◌else◌,
}
use mathlib.Core.List.{append_assoc}
use evm_executor_rs.Base.Bytes.{All, IsByte, byte_at, be_value, be_value-append_one, replicate}
use evm_executor_rs.Base.Bytes.Windows.{window, window_append, length-window, byte_at-IsByte}
use evm_executor_rs.External.Traits.{Bytes}
use evm_executor_rs.Precompile.Contract.{Crates, returned_bytes}
use evm_executor_rs.Precompile.Ecrecover.{
  secp256k1n, any_nonzero, address_of, recover_parts, ecrecover_run,
}
use evm_executor_rs.Precompile.Ecrecover.Sized.{parts_of, parts-sized, any_nonzero_cases}

-- The numbers that the input names: how the key is to be found, and the signature.
abbrev pub v_of : Bytes → ℕ
v_of input = be_value (window 32 input 32)

abbrev pub r_of : Bytes → ℕ
r_of input = be_value (window 32 input 64)

abbrev pub s_of : Bytes → ℕ
s_of input = be_value (window 32 input 96)

-- The order of the group of secp256k1.
abbrev pub group_order : ℕ
group_order = 2 ^ 256 - 432420386565659656852420866394968145599

-- Both halves of the signature are between 1 and the order of the group, and v is 27 or 28.
abbrev pub IsSignature : Bytes → Type 0
IsSignature input =
    ((v_of input ≡ 27) ⊎ (v_of input ≡ 28))
    × ((1 ≤ r_of input) × (r_of input < group_order))
    × ((1 ≤ s_of input) × (s_of input < group_order))

-- The word of v is its last byte behind 31 others.
v_of_last : (input : Bytes) → v_of input ≡ 256 * be_value (window 31 input 32) + byte_at input 63
unfolding window
v_of_last input =
    ap be_value (window_append 31 1 input 32)
    ∙ be_value-append_one (window 31 input 32) (byte_at input 63)

-- The checks of the parts, in the order of the code.
abbrev checks : Bool → ℕ → ℕ → ℕ → Bytes → Bytes
unfolding secp256k1n
checks any r s v address =
    if any
    then []
    else if r == 0 || s == 0
    then []
    else if leb secp256k1n r || leb secp256k1n s || (not (v == 27) && not (v == 28))
    then []
    else address

module _ (any : Bool) (high last v r s : ℕ) (address : Bytes)
    (zeros : ((any ≡ false) × (high ≡ 0)) ⊎ ((any ≡ true) × (1 ≤ high))) (byte : last < 256)
    (word : v ≡ 256 * high + last) where
  checks_valid :
      ((v ≡ 27) ⊎ (v ≡ 28)) × ((1 ≤ r) × (r < group_order)) × ((1 ≤ s) × (s < group_order))
      → checks any r s last address ≡ address
  unfolding secp256k1n
  checks_valid h = ground arith

  checks_invalid :
      (((v ≡ 27) ⊎ (v ≡ 28)) × ((1 ≤ r) × (r < group_order)) × ((1 ≤ s) × (s < group_order)) → ⊥)
      → checks any r s last address ≡ []
  unfolding secp256k1n
  checks_invalid h = ground (arith, h)

module _ (c : Crates) where
  signature_of : Bytes → Bytes
  signature_of input = window 64 input 64 ++ byte_at input 63 ∷ []

  recover_parts-checks :
      (input : Bytes)
      → recover_parts c (parts_of input)
        ≡ checks
            (any_nonzero (window 31 input 32))
            (r_of input)
            (s_of input)
            (byte_at input 63)
            (address_of c (c.hashes.ecdsa_recover (signature_of input) (window 32 input 0)))
  unfolding recover_parts secp256k1n signature_of
  recover_parts-checks input =
      rw
        (
          window_append 32 32 input 64,
          append_assoc (window 32 input 64) (window 32 input 96) (byte_at input 63 ∷ []),
          c.uint_bytes.from_slice_lem (window 32 input 64)
              (omega (arith, length-window 32 input 64)),
          c.uint_bytes.from_slice_lem (window 32 input 96)
              (omega (arith, length-window 32 input 96)),
        )
        refl

  -- What is recovered of the parts.
  recovered :
      (input : Bytes)
      → All IsByte input
      → (IsSignature input
          → recover_parts c (parts_of input)
            ≡ address_of c (
                c.hashes.ecdsa_recover (window 64 input 64 ++ v_of input ∷ []) (window 32 input 0)))
        × ((IsSignature input → ⊥) → recover_parts c (parts_of input) ≡ [])
  unfolding signature_of
  recovered input bytes =
      let any = any_nonzero (window 31 input 32) in
      let high = be_value (window 31 input 32) in
      let last = byte_at input 63 in
      let zeros = any_nonzero_cases (window 31 input 32) in
      let byte = byte_at-IsByte input 63 bytes in
      let word = v_of_last input in
      let found = address_of c (c.hashes.ecdsa_recover (signature_of input) (window 32 input 0)) in
      (
        (λ h.
            recover_parts-checks input
            ∙ checks_valid any high last (v_of input) (r_of input) (s_of input) found zeros byte
                word h
            ∙ ap
                (λ v.
                  address_of c
                    (c.hashes.ecdsa_recover (window 64 input 64 ++ v ∷ []) (window 32 input 0)))
                (last_v high last (v_of input) byte word h.0)),
        (λ h.
            recover_parts-checks input
            ∙ checks_invalid any high last (v_of input) (r_of input) (s_of input) found zeros byte
                word h),
      )
    where
      last_v :
          (high last v : ℕ) → last < 256 → v ≡ 256 * high + last → (v ≡ 27) ⊎ (v ≡ 28) → last ≡ v
      last_v high last v byte word h = ground (arith, h)

  -- What is returned of a key.
  address_cases :
      (o : Option Bytes)
      → (o ≡ none → address_of c o ≡ [])
        × ((key : Bytes)
            → o ≡ some key
            → address_of c o ≡ replicate 12 0 ++ drop 12 (c.hashes.keccak_hash key))
  address_cases none = (λ e. refl, λ key e. cc)
  address_cases (some k) = (λ e. cc, λ key e. ap (address_of c) e)

  -- For an input of bytes with a signature, whose halves are between 1 and the order of the group
  -- and whose v is 27 or 28, the contract returns 12 zeros and the bytes behind the first 12 of the
  -- hash of the recovered key, or nothing if no key is recovered; for any other input of bytes it
  -- returns nothing. The key is recovered from the first word as the message and the last two words
  -- with v behind them as the signature. Bytes beyond the end of the input count as zeros, and those
  -- behind the first 128 do not count.
  pub ecrecover_run_value :
      (input : Bytes)
      → All IsByte input
      → let o =
          c.hashes.ecdsa_recover (window 64 input 64 ++ v_of input ∷ []) (window 32 input 0) in
        (IsSignature input → o ≡ none → ecrecover_run c input ≡ returned_bytes [])
        × ((key : Bytes)
            → IsSignature input
            → o ≡ some key
            → ecrecover_run c input
              ≡ returned_bytes (replicate 12 0 ++ drop 12 (c.hashes.keccak_hash key)))
        × ((IsSignature input → ⊥) → ecrecover_run c input ≡ returned_bytes [])
  unfolding ecrecover_run
  ecrecover_run_value input bytes =
      let (valid, invalid) = recovered input bytes in
      let (lost, found) =
        address_cases
          (c.hashes.ecdsa_recover (window 64 input 64 ++ v_of input ∷ []) (window 32 input 0)) in
      rw (parts-sized input) (
        (λ h e. ap returned_bytes (valid h ∙ lost e)),
        (λ key h e. ap returned_bytes (valid h ∙ found key e)),
        (λ h. ap returned_bytes (invalid h)),
      )
