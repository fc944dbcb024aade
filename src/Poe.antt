-- ===== src/Poe.antt =====
-- src/poe.rs: proofs of execution, their composition into batches and their signatures.
pub mod Chains
pub mod Batches
pub mod Joins
pub mod Signatures
use evm_executor_rs.Base.{
  ℕ, ◌+◌, zero, suc, Bool, Option, none, some, List, [], ◌∷◌, map, ltb, ◌==◌, if◌then◌else◌,
  Outcome, ok, err, panic, Action, pure, throw, or_panic, ◌>>=◌, ◌>>◌, length,
}
use evm_executor_rs.External.Traits.{Address, Hash, Bytes}
use evm_executor_rs.External.Crypto.{Crypto, Arg, word, bytes}

pub record Poe : Type 0 where
  pub batch_hash : Hash
  pub state_hash : Hash
  pub prev_state_root : Hash
  pub new_state_root : Hash
  pub withdrawal_root : Hash
  pub signature : Bytes

-- `vec![value; n]`
abbrev repeated : ℕ → ℕ → Bytes
repeated value zero = []
repeated value (suc n) = value ∷ repeated value n

-- `vec![0_u8; 65]`
abbrev pub no_signature : Bytes
no_signature = repeated 0 65

unfoldable pub single_block : Hash → Hash → Hash → Hash → Poe
single_block state_hash prev_state_root new_state_root withdrawal_root = record {
  batch_hash = 0;
  state_hash = state_hash;
  prev_state_root = prev_state_root;
  new_state_root = new_state_root;
  withdrawal_root = withdrawal_root;
  signature = no_signature;
}

-- `Poe::default`
unfoldable pub default_poe : Poe
default_poe = record {
  batch_hash = 0;
  state_hash = 0;
  prev_state_root = 0;
  new_state_root = 0;
  withdrawal_root = 0;
  signature = no_signature;
}

-- The messages that `batch` returns: the second is formatted of the index, the root that is wanted
-- and the root that is there.
pub data BatchError : Type 0 where
  length_is_zero : BatchError
  unexpected_state_root : ℕ → Hash → Hash → BatchError

-- The variables of the loop in `batch`.
pub record Roots : Type 0 where
  pub prev_state_root : Option Hash
  pub new_state_root : Option Hash
  pub withdrawal_root : Option Hash

abbrev pub Chaining : Type 0 → Type 0
Chaining A = Action Roots BatchError A

-- `if prev_state_root.is_none() { prev_state_root = Some(..) }`
abbrev or_set : Option Hash → Hash → Option Hash
or_set none root = some root
or_set (some first) root = some first

abbrev check_root : Option Hash → ℕ → Poe → Chaining (Unit {0})
check_root none idx poe = pure tt
check_root (some state_root) idx poe =
    if state_root == poe.prev_state_root
    then pure tt
    else throw (unexpected_state_root idx state_root poe.prev_state_root)

-- One turn of the loop.
unfoldable pub chain_poe : ℕ → Poe → Chaining (Unit {0})
chain_poe idx poe roots =
    let set = record roots { prev_state_root = or_set roots.prev_state_root poe.prev_state_root } in
    (check_root set.new_state_root idx poe >>= λ _ r. (
      ok tt,
      record r {
        new_state_root = some poe.new_state_root;
        withdrawal_root = some poe.withdrawal_root;
      },
    ))
      set

unfoldable pub chain_poes : ℕ → List Poe → Chaining (Unit {0})
chain_poes idx [] = pure tt
chain_poes idx (poe ∷ poes) = chain_poe idx poe >> chain_poes (idx + 1) poes

abbrev pub no_roots : Roots
no_roots = record { prev_state_root = none; new_state_root = none; withdrawal_root = none }

abbrev get_roots : Chaining Roots
get_roots roots = (ok roots, roots)

module _ (c : Crypto) where
  -- What `batch` does with a list that is not empty.
  unfoldable pub compose : Hash → List Poe → Chaining Poe
  compose batch_hash block_poes = do
    chain_poes 0 block_poes
    roots ← get_roots
    prev_state_root ← or_panic roots.prev_state_root
    new_state_root ← or_panic roots.new_state_root
    withdrawal_root ← or_panic roots.withdrawal_root
    pure (record {
      batch_hash = batch_hash;
      state_hash = c.keccak_encode (map (λ poe. c.hash_bytes poe.state_hash) block_poes);
      prev_state_root = prev_state_root;
      new_state_root = new_state_root;
      withdrawal_root = withdrawal_root;
      signature = no_signature;
    })

  unfoldable pub batch : Hash → List Poe → Outcome BatchError Poe
  unfolding compose
  batch batch_hash block_poes =
      if ltb (length block_poes) 1
      then err length_is_zero
      else (compose batch_hash block_poes no_roots).0

  unfoldable pub sign_msg : Poe → ℕ → Bytes
  sign_msg poe chain_id = c.encode (
      word chain_id
      ∷ word poe.batch_hash
      ∷ word poe.state_hash
      ∷ word poe.prev_state_root
      ∷ word poe.new_state_root
      ∷ word poe.withdrawal_root
      ∷ bytes poe.signature
      ∷ [])

  unfoldable pub encode : Poe → Bytes
  encode poe = c.encode (
      word poe.batch_hash
      ∷ word poe.state_hash
      ∷ word poe.prev_state_root
      ∷ word poe.new_state_root
      ∷ word poe.withdrawal_root
      ∷ bytes poe.signature
      ∷ [])

  unfoldable pub sign : ℕ → c.PrivateKey → Poe → Poe
  unfolding sign_msg
  sign chain_id prvkey poe = record poe { signature = c.sign prvkey (sign_msg poe chain_id) }

  -- `copy_from_slice` panics unless there are 65 bytes.
  unfoldable pub recover : ℕ → Poe → Option Address
  unfolding sign_msg
  recover chain_id poe =
      let msg = sign_msg (record poe { signature = no_signature }) chain_id in
      if length poe.signature == 65 then some (c.recover_account poe.signature msg) else none
