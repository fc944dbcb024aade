-- ===== src/Precompile/ModExp/Gas.antt =====
-- The gas of the modular exponentiation: the price of EIP-2565, and where it panics or comes out
-- too low.
use evm_executor_rs.Base.{
  ℕ, ◌+◌, ◌*◌, ◌^◌, ◌≤◌, ◌<◌, ◌≡◌, refl, ap, ◌∙◌, true, Bool-cases, inl, inr, Option, none, some,
  arith, drop, min, max, leb, leb→le, ◌↔◌,
}
use evm_executor_rs.Base.Options.{◌>>=◌}
use evm_executor_rs.Base.Bytes.{All, IsByte}
use evm_executor_rs.External.Traits.{Bytes}
use evm_executor_rs.Precompile.Contract.{Crates}
use evm_executor_rs.Precompile.ModExp.{
  PrecompileBigModExp, exp_head, adjusted_length, modexp_price, modexp_gas,
}
use evm_executor_rs.Precompile.ModExp.Windows.{lengths_of, AreSmall, read_lengths_small}
use evm_executor_rs.Precompile.ModExp.Price.{
  eip2565_price, iterations, price_value, bits_bound, adjusted_value, adjusted_wraps,
  adjusted_small,
}
use evm_executor_rs.Precompile.ModExp.Head.{
  rest_length, head_of, head_absent, head_cut, IsReadable, head_readable,
}

module _ (c : Crates) where
  module _ (self : PrecompileBigModExp) (priced : self.eip2565 ≡ true) where
    gas_of_head :
        (input : Bytes) (o : Option ℕ)
        → AreSmall (lengths_of input)
        → exp_head c.uint_bytes (drop 96 input) (lengths_of input) ≡ o
        → modexp_gas c self input ≡ (
            o >>= λ head.
            modexp_price c.uint c.uint_bytes
              (max (lengths_of input).modulus (lengths_of input).base)
              (adjusted_length c.uint_bytes (lengths_of input).exponent head))
    unfolding modexp_gas
    gas_of_head input o small e = rw (read_lengths_small c.uint_bytes input small, e, priced) refl

    -- With EIP-2565 turned on, for lengths in the header that fit in machine words, an exponent of
    -- less than 2^61 bytes, and an input of bytes that holds the first 32 bytes of the exponent (all
    -- of a shorter one) or ends before the exponent, the price is that of EIP-2565, or 2^64 - 1 if
    -- that is larger.
    pub modexp_gas-eip2565 :
        (input : Bytes)
        → All IsByte input
        → AreSmall (lengths_of input)
        → (lengths_of input).exponent < 2 ^ 61
        → IsReadable input (lengths_of input)
        → modexp_gas c self input
          ≡ some (
              eip2565_price
                (max (lengths_of input).modulus (lengths_of input).base)
                (iterations c.uint_bytes (lengths_of input).exponent (head_of input)))
    modexp_gas-eip2565 input bytes small short readable =
        let l = lengths_of input in
        let size = max l.modulus l.base in
        let e =
          adjusted_value c l.exponent (head_of input) short
            (bits_bound c (min l.exponent 32) input (96 + l.base) bytes (omega arith)) in
        gas_of_head input (some (head_of input)) small (head_readable c input readable)
        ∙ price_value c.uint c.uint_bytes size
            (adjusted_length c.uint_bytes l.exponent (head_of input))
            (omega (arith, small.small_modulus, small.small_base))
            (adjusted_small c l.exponent (head_of input))
        ∙ ap (λ n. some (eip2565_price size n)) e

    -- With EIP-2565 turned on and for lengths in the header that fit in machine words, the price
    -- panics exactly if the input holds a byte of the exponent, but not all of its first 32 (or of
    -- a shorter one).
    pub modexp_gas_panics_iff :
        (input : Bytes)
        → AreSmall (lengths_of input)
        → (modexp_gas c self input ≡ none) ↔ (
            ((lengths_of input).base < rest_length input)
            × (rest_length input < (lengths_of input).base + min (lengths_of input).exponent 32))
    modexp_gas_panics_iff input small =
        (found, λ (p, q). gas_of_head input none small (head_cut c input (lengths_of input) p q))
      where
        priced_when :
            IsReadable input (lengths_of input) → (n : ℕ) × (modexp_gas c self input ≡ some n)
        priced_when readable =
            let l = lengths_of input in
            (
              eip2565_price (max l.modulus l.base)
                  (adjusted_length c.uint_bytes l.exponent (head_of input)),
              gas_of_head input (some (head_of input)) small (head_readable c input readable)
                  ∙ price_value c.uint c.uint_bytes (max l.modulus l.base)
                      (adjusted_length c.uint_bytes l.exponent (head_of input))
                      (omega (arith, small.small_modulus, small.small_base))
                      (adjusted_small c l.exponent (head_of input)),
            )

        refuted : IsReadable input (lengths_of input) → modexp_gas c self input ≡ none → ⊥
        refuted readable e = ground (arith, (priced_when readable).1, e)

        found :
            modexp_gas c self input ≡ none
            → ((lengths_of input).base < rest_length input)
              × (rest_length input < (lengths_of input).base + min (lengths_of input).exponent 32)
        found e = elim (Bool-cases (leb (rest_length input) (lengths_of input).base)) [
          | inl short ↦
              absurd (refuted (inl (leb→le (rest_length input) (lengths_of input).base short)) e)
          | inr more ↦
              elim (Bool-cases (
                leb ((lengths_of input).base + min (lengths_of input).exponent 32)
                  (rest_length input))) [
                    | inl long ↦ absurd (
                        refuted
                          (inr (
                            leb→le ((lengths_of input).base + min (lengths_of input).exponent 32)
                              (rest_length input) long))
                          e)
                    | inr cut ↦ (ground (arith, more), ground (arith, cut))
                  ]
        ]

    -- With EIP-2565 turned on, an exponent whose length is 32 and a multiple of 2^61 costs as little
    -- as one with no bits, if the input ends before it and the lengths in the header fit in machine
    -- words.
    pub modexp_gas_wraps :
        (input : Bytes) (k : ℕ)
        → AreSmall (lengths_of input)
        → (lengths_of input).exponent ≡ 32 + 2 ^ 61 * k
        → rest_length input ≤ (lengths_of input).base
        → modexp_gas c self input
          ≡ some (eip2565_price (max (lengths_of input).modulus (lengths_of input).base) 0)
    modexp_gas_wraps input k small e short =
        let l = lengths_of input in
        gas_of_head input (some 0) small (head_absent c input l short)
        ∙ price_value c.uint c.uint_bytes (max l.modulus l.base)
            (adjusted_length c.uint_bytes l.exponent 0)
            (omega (arith, small.small_modulus, small.small_base)) (adjusted_small c l.exponent 0)
        ∙ ap (λ n. some (eip2565_price (max l.modulus l.base) n)) (adjusted_wraps c l.exponent k e)
