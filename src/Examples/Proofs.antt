-- ===== src/Examples/Proofs.antt =====
-- Proofs of execution in a small world: a hash that adds up, signatures that name their key, and
-- an encoder that writes each argument down.
use evm_executor_rs.Base.{
  ℕ, zero, suc, ◌+◌, ◌≡◌, refl, ap, some, List, [], ◌∷◌, ◌++◌, map, arith, ok, err, ◌↔◌,
}
use evm_executor_rs.External.Traits.{Bytes, Address}
use evm_executor_rs.External.Crypto.{Crypto, CryptoLaws, Arg, word, bytes}
use evm_executor_rs.Poe.{
  Poe, unexpected_state_root, no_signature, chain_poe, chain_poes, compose, batch, sign, recover,
  single_block,
}
use evm_executor_rs.Poe.Chains.{IsChain}
use evm_executor_rs.Poe.Batches.{composed, batch-IsChain, batch_broken}
use evm_executor_rs.Poe.Joins.{IsSameStep, batch-append}
use evm_executor_rs.Poe.Signatures.{
  recover-sign, recover-sign-batch, message, recover-sign_messages,
}

abbrev total : List ℕ → ℕ
total [] = 0
total (n ∷ ns) = n + total ns

abbrev flatten : List Arg → Bytes
flatten [] = []
flatten (word n ∷ args) = n ∷ flatten args
flatten (bytes b ∷ args) = b ++ flatten args

abbrev stamp : ℕ → ℕ → Bytes
stamp k zero = []
stamp k (suc n) = k ∷ stamp k n

abbrev first_byte : Bytes → Address
first_byte [] = 0
first_byte (b ∷ bs) = b

abbrev pub crypto : Crypto
crypto = record {
  PrivateKey = ℕ;
  keccak_hash = total;
  keccak_encode = λ chunks. total (map total chunks);
  hash_bytes = λ n. n ∷ [];
  sign = λ k msg. stamp k 65;
  recover_account = λ sig msg. first_byte sig;
  encode = flatten;
}

cons_injective : (n : ℕ) (xs ys : Bytes) → n ∷ xs ≡ n ∷ ys → xs ≡ ys
cons_injective n xs ys e = ground (arith, e)

append_injective : (b xs ys : Bytes) → b ++ xs ≡ b ++ ys → xs ≡ ys
append_injective [] xs ys e = e
append_injective (n ∷ b) xs ys e = append_injective b xs ys (cons_injective n _ _ e)

append_nil : (xs : Bytes) → xs ++ [] ≡ xs
append_nil [] = refl
append_nil (x ∷ xs) = ap (◌∷◌ x) (append_nil xs)

flatten_bytes :
    (args : List Arg) (xs ys : Bytes)
    → flatten (args ++ bytes xs ∷ []) ≡ flatten (args ++ bytes ys ∷ [])
    → xs ≡ ys
flatten_bytes [] xs ys e = ground (arith, e, append_nil xs, append_nil ys)
flatten_bytes (word n ∷ args) xs ys e = flatten_bytes args xs ys (cons_injective n _ _ e)
flatten_bytes (bytes b ∷ args) xs ys e = flatten_bytes args xs ys (append_injective b _ _ e)

abbrev crypto_laws : CryptoLaws crypto
crypto_laws = record {
  account = λ k. k;
  length-sign = λ k msg. refl;
  recover-sign = λ k msg. refl;
  encode_bytes-inj = flatten_bytes;
}

abbrev step : ℕ → ℕ → Poe
step a b = single_block 1 a b 7

abbrev joined : Poe
joined = record {
  batch_hash = 5;
  state_hash = 2;
  prev_state_root = 10;
  new_state_root = 12;
  withdrawal_root = 7;
  signature = no_signature;
}

batch_ok : batch crypto 5 (step 10 11 ∷ step 11 12 ∷ []) ≡ ok joined
unfolding batch compose chain_poes chain_poe single_block
batch_ok = refl

batch-IsChain_example : (batch crypto 5 (step 10 11 ∷ step 11 12 ∷ []) ≡ ok joined) ↔ (
    IsChain (step 10 11) (step 11 12 ∷ [])
    × (composed crypto 5 (step 10 11) (step 11 12 ∷ []) ≡ joined))
batch-IsChain_example = batch-IsChain crypto 5 (step 10 11) (step 11 12 ∷ []) joined

abbrev onward : Poe
onward = record joined { state_hash = 1; prev_state_root = 12; new_state_root = 13 }

onward_ok : batch crypto 5 (step 12 13 ∷ []) ≡ ok onward
unfolding batch compose chain_poes chain_poe single_block
onward_ok = refl

batch-append_example :
    (t : Poe) × (u : Poe) × (batch crypto 6 (joined ∷ onward ∷ []) ≡ ok t)
    × (batch crypto 5 (step 10 11 ∷ step 11 12 ∷ step 12 13 ∷ []) ≡ ok u)
    × IsSameStep t u
batch-append_example =
    batch-append crypto 5 5 6 5 (step 10 11) (step 11 12 ∷ []) (step 12 13) [] batch_ok onward_ok
      refl

recover-sign_example : recover crypto 1 (sign crypto 1 42 joined) ≡ some 42
recover-sign_example = recover-sign crypto crypto_laws 1 42 joined refl

recover-sign-batch_example : recover crypto 1 (sign crypto 1 42 joined) ≡ some 42
recover-sign-batch_example =
    recover-sign-batch crypto crypto_laws 1 42 5 (step 10 11) (step 11 12 ∷ []) batch_ok

-- A proof that has a signature is signed again.
abbrev signed_before : Poe
signed_before = record joined { signature = stamp 42 65 }

recover-sign_messages_example :
    ((sign crypto 1 7 signed_before).signature
      ≡ crypto.sign 7 (message crypto 1 signed_before (stamp 42 65)))
    × (recover crypto 1 (sign crypto 1 7 signed_before)
        ≡ some (
            crypto.recover_account
              (crypto.sign 7 (message crypto 1 signed_before (stamp 42 65)))
              (message crypto 1 signed_before (stamp 0 65))))
    × ((message crypto 1 signed_before (stamp 42 65) ≡ message crypto 1 signed_before (stamp 0 65))
        ↔ (stamp 42 65 ≡ stamp 0 65))
recover-sign_messages_example = recover-sign_messages crypto crypto_laws 1 7 signed_before

batch_broken_example :
    batch crypto 5 (step 10 11 ∷ step 11 12 ∷ step 99 13 ∷ []) ≡ err (unexpected_state_root 2 12 99)
unfolding single_block
batch_broken_example =
    batch_broken crypto 5 (step 10 11) (step 11 12 ∷ []) (step 99 13) [] (refl, tt) (omega arith)
