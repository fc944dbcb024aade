-- ===== src/Pob.antt =====
-- src/pob.rs: proofs of block, the state that a block needs with the nodes of its proofs.
pub mod Nodes
pub mod Order
use evm_executor_rs.Base.{
  ℕ, Bool, true, false, Option, none, some, List, [], ◌∷◌, map, ltb, ◌==◌, if◌then◌else◌,
}
use evm_executor_rs.External.Traits.{Hash, Bytes}
use evm_executor_rs.External.Crypto.{Crypto}

-- The proofs in `eth_types::FetchStateResult`: the nodes for an account and for each of its slots.
pub record StorageProof : Type 0 where
  pub proof : List Bytes

pub record AccountProof : Type 0 where
  pub account_proof : List Bytes
  pub storage_proof : List StorageProof

pub record FetchStateResult : Type 0 where
  pub acc : Option AccountProof

-- A `BTreeMap` is the list of its entries, by increasing keys.
pub record PobData : Type 0 where
  pub chain_id : ℕ
  pub prev_state_root : Hash
  pub block_hashes : List (ℕ × Hash)
  pub mpt_nodes : List Bytes
  pub codes : List Bytes

pub record Pob (Block : Type 0) : Type 0 where
  pub block : Block
  pub payload : PobData
  pub state_hash : Option Hash

unfoldable pub new : {Block : Type 0} → Block → PobData → Pob Block
new block payload = record { block = block; payload = payload; state_hash = none }

-- `mpt_nodes.entry(hash).or_insert(node)`
unfoldable pub or_insert : Hash → Bytes → List (Hash × Bytes) → List (Hash × Bytes)
or_insert hash node [] = (hash, node) ∷ []
or_insert hash node ((key, value) ∷ entries) =
    let rest = or_insert hash node entries in
    if ltb hash key
    then (hash, node) ∷ (key, value) ∷ entries
    else if hash == key
    then (key, value) ∷ entries
    else (key, value) ∷ rest

-- The order of bytes, `sort_unstable` by it, and `into_values`.
abbrev pub bytes_le : Bytes → Bytes → Bool
bytes_le [] ys = true
bytes_le (x ∷ xs) [] = false
bytes_le (x ∷ xs) (y ∷ ys) =
    let rest = bytes_le xs ys in if ltb x y then true else if x == y then rest else false

abbrev pub insert_sorted : Bytes → List Bytes → List Bytes
insert_sorted x [] = x ∷ []
insert_sorted x (y ∷ ys) =
    let rest = insert_sorted x ys in if bytes_le x y then x ∷ y ∷ ys else y ∷ rest

abbrev pub sort_unstable : List Bytes → List Bytes
sort_unstable [] = []
sort_unstable (x ∷ xs) = insert_sorted x (sort_unstable xs)

abbrev pub into_values : {K : Type 0} → List (K × Bytes) → List Bytes
into_values [] = []
into_values ((key, value) ∷ entries) = value ∷ into_values entries

module _ (c : Crypto) where
  -- `for node in ..`
  unfoldable pub add_nodes : List Bytes → List (Hash × Bytes) → List (Hash × Bytes)
  add_nodes [] mpt_nodes = mpt_nodes
  add_nodes (node ∷ nodes) mpt_nodes =
      add_nodes nodes (or_insert (c.keccak_hash node) node mpt_nodes)

  -- `for storage in acc.storage_proof`
  unfoldable pub add_storages : List StorageProof → List (Hash × Bytes) → List (Hash × Bytes)
  add_storages [] mpt_nodes = mpt_nodes
  add_storages (storage ∷ storages) mpt_nodes =
      add_storages storages (add_nodes storage.proof mpt_nodes)

  abbrev pub add_acc : Option AccountProof → List (Hash × Bytes) → List (Hash × Bytes)
  add_acc none mpt_nodes = mpt_nodes
  add_acc (some acc) mpt_nodes =
      add_storages acc.storage_proof (add_nodes acc.account_proof mpt_nodes)

  -- `for state in states`
  unfoldable pub add_states : List FetchStateResult → List (Hash × Bytes) → List (Hash × Bytes)
  add_states [] mpt_nodes = mpt_nodes
  add_states (state ∷ states) mpt_nodes = add_states states (add_acc state.acc mpt_nodes)

  unfoldable pub from_proof :
      {Block : Type 0}
      → ℕ
      → Block
      → Hash
      → List (ℕ × Hash)
      → List (Hash × Bytes)
      → List FetchStateResult
      → Pob Block
  unfolding new
  from_proof chain_id blk prev_state_root block_hashes codes states = new blk (record {
    chain_id = chain_id;
    prev_state_root = prev_state_root;
    block_hashes = block_hashes;
    mpt_nodes = into_values (add_states states []);
    codes = into_values codes;
  })

  abbrev hash_sorted : {Block : Type 0} → Pob Block → Hash × Pob Block
  hash_sorted pob =
      let nodes = sort_unstable pob.payload.mpt_nodes in
      let hash = c.keccak_encode nodes in
      (
        hash,
        record pob { payload = record (pob.payload) { mpt_nodes = nodes }; state_hash = some hash },
      )

  unfoldable pub state_hash : {Block : Type 0} → Pob Block → Hash × Pob Block
  state_hash pob = elim pob.state_hash [ some hash ↦ (hash, pob) | none ↦ hash_sorted pob ]
