-- ===== src/Poe/Signatures.antt =====
-- `Poe::sign` and `Poe::recover`.
use evm_executor_rs.Base.{ℕ, ◌≡◌, ap, sym, ◌↔◌, refl, some, List, [], ◌∷◌, arith, ok}
use evm_executor_rs.External.Crypto.{Crypto, CryptoLaws, word, bytes}
use evm_executor_rs.Base.Bytes.{replicate}
use evm_executor_rs.External.Traits.{Bytes, Hash}
use evm_executor_rs.Poe.{Poe, no_signature, sign_msg, sign, recover, batch}
use evm_executor_rs.Poe.Batches.{batch-IsChain}

abbrev pub unsigned : Poe → Poe
unsigned poe = record poe { signature = no_signature }

module _ (c : Crypto) where
  -- The message for a proof and a signature in it.
  abbrev pub message : ℕ → Poe → Bytes → Bytes
  message chain_id poe signature = c.encode (
      word chain_id
      ∷ word poe.batch_hash
      ∷ word poe.state_hash
      ∷ word poe.prev_state_root
      ∷ word poe.new_state_root
      ∷ word poe.withdrawal_root
      ∷ bytes signature
      ∷ [])

module _ (c : Crypto) (laws : CryptoLaws c) where
  -- Recovering from a proof that was signed, when it had no signature before, gives the account of
  -- the signing key, as far as the signatures themselves can be recovered from.
  pub recover-sign :
      (chain_id : ℕ) (prvkey : c.PrivateKey) (poe : Poe)
      → poe.signature ≡ no_signature
      → recover c chain_id (sign c chain_id prvkey poe) ≡ some (laws.account prvkey)
  unfolding recover sign
  recover-sign chain_id prvkey poe e =
      let msg = sign_msg c (unsigned poe) chain_id in
      rw e (ground (arith, laws.length-sign prvkey msg, laws.recover-sign prvkey msg))

  -- A batch is made without a signature: once it is signed, recovering gives the account of the
  -- signing key, as far as the signatures themselves can be recovered from.
  pub recover-sign-batch :
      (chain_id : ℕ) (prvkey : c.PrivateKey) (batch_hash : Hash) (p : Poe) (ps : List Poe) {r : Poe}
      → batch c batch_hash (p ∷ ps) ≡ ok r
      → recover c chain_id (sign c chain_id prvkey r) ≡ some (laws.account prvkey)
  recover-sign-batch chain_id prvkey batch_hash p ps {r} e =
      let (l, x) = (batch-IsChain c batch_hash p ps r).0 e in
      recover-sign chain_id prvkey r (sym (ap (λ (z : Poe). z.signature) x))

  message-iff-signature :
      (chain_id : ℕ) (poe : Poe) (xs ys : Bytes)
      → (message c chain_id poe xs ≡ message c chain_id poe ys) ↔ (xs ≡ ys)
  message-iff-signature chain_id poe xs ys = (
    λ e.
        laws.encode_bytes-inj
          (word chain_id
            ∷ word poe.batch_hash
            ∷ word poe.state_hash
            ∷ word poe.prev_state_root
            ∷ word poe.new_state_root
            ∷ word poe.withdrawal_root
            ∷ [])
          xs ys e,
    λ e. ap (message c chain_id poe) e,
  )

  -- Signing a proof signs the message that has the proof's old signature in it, while recovering
  -- from the result checks the new signature against the message with 65 zeros in that place. As
  -- the encoder writes different bytes differently, the two messages are the same exactly if the
  -- old signature was 65 zeros.
  pub recover-sign_messages :
      (chain_id : ℕ) (prvkey : c.PrivateKey) (poe : Poe)
      → ((sign c chain_id prvkey poe).signature
          ≡ c.sign prvkey (message c chain_id poe poe.signature))
        × (recover c chain_id (sign c chain_id prvkey poe)
            ≡ some (
                c.recover_account
                  (c.sign prvkey (message c chain_id poe poe.signature))
                  (message c chain_id poe (replicate 65 0))))
        × ((message c chain_id poe poe.signature ≡ message c chain_id poe (replicate 65 0))
            ↔ (poe.signature ≡ replicate 65 0))
  unfolding sign recover sign_msg
  recover-sign_messages chain_id prvkey poe = (
    refl,
    ground (arith, laws.length-sign prvkey (message c chain_id poe poe.signature)),
    message-iff-signature chain_id poe poe.signature (replicate 65 0),
  )
