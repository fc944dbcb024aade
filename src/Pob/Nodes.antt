-- ===== src/Pob/Nodes.antt =====
-- The nodes of a proof of block, and its hash.
use evm_executor_rs.Base.{
  ℕ, ◌<◌, ◌≡◌, refl, Bool-cases, inl, inr, Option, none, some, List, [], ◌∷◌, arith, ltb, ltb→lt,
  ◌==◌,
}
use evm_executor_rs.External.Traits.{Hash, Bytes}
use evm_executor_rs.External.Crypto.{Crypto}
use evm_executor_rs.Pob.{
  StorageProof, AccountProof, FetchStateResult, new, or_insert, add_nodes, add_storages, add_acc,
  add_states, into_values, from_proof,
}

module _ (c : Crypto) where
  -- All keys are larger.
  abbrev IsBelow : Hash → List (Hash × Bytes) → Type 0
  IsBelow hash [] = Unit
  IsBelow hash ((key, value) ∷ entries) = (hash < key) × IsBelow hash entries

  -- Keys increase, and each is the hash of its node.
  abbrev IsIndex : List (Hash × Bytes) → Type 0
  IsIndex [] = Unit
  IsIndex ((key, value) ∷ entries) =
      (key ≡ c.keccak_hash value) × IsBelow key entries × IsIndex entries

  -- Nodes by increasing hashes, so that none has the hash of another.
  abbrev AreBelow : Hash → List Bytes → Type 0
  AreBelow hash [] = Unit
  AreBelow hash (node ∷ nodes) = (hash < c.keccak_hash node) × AreBelow hash nodes

  abbrev pub IsIncreasing : List Bytes → Type 0
  IsIncreasing [] = Unit
  IsIncreasing (node ∷ nodes) = AreBelow (c.keccak_hash node) nodes × IsIncreasing nodes

  IsBelow-trans :
      (a b : Hash) (entries : List (Hash × Bytes)) → a < b → IsBelow b entries → IsBelow a entries
  IsBelow-trans a b [] l below = tt
  IsBelow-trans a b ((key, value) ∷ entries) l (m, below) =
      (omega arith, IsBelow-trans a b entries l below)

  or_insert-IsBelow :
      (a hash : Hash) (node : Bytes) (entries : List (Hash × Bytes))
      → a < hash
      → IsBelow a entries
      → IsBelow a (or_insert hash node entries)
  unfolding or_insert
  or_insert-IsBelow a hash node [] l below = (l, tt)
  or_insert-IsBelow a hash node ((key, value) ∷ entries) l (m, below) =
      elim (Bool-cases (ltb hash key)) [
        | inl less ↦ rw less (l, (m, below))
        | inr more ↦ rw more (elim (Bool-cases (hash == key)) [
          | inl same ↦ rw same (m, below)
          | inr other ↦ rw other (m, or_insert-IsBelow a hash node entries l below)
        ])
      ]

  or_insert-IsIndex :
      (node : Bytes) (entries : List (Hash × Bytes))
      → IsIndex entries
      → IsIndex (or_insert (c.keccak_hash node) node entries)
  unfolding or_insert
  or_insert-IsIndex node [] i = (refl, tt, tt)
  or_insert-IsIndex node ((key, value) ∷ entries) (named, below, i) =
      let hash = c.keccak_hash node in
      elim (Bool-cases (ltb hash key)) [
        | inl less ↦
            let l = ltb→lt hash key less in
            rw less (refl, (l, IsBelow-trans hash key entries l below), (named, below, i))
        | inr more ↦ rw more (elim (Bool-cases (hash == key)) [
          | inl same ↦ rw same (named, below, i)
          | inr other ↦ rw other (
            named,
            or_insert-IsBelow key hash node entries (ground (arith, more, other)) below,
            or_insert-IsIndex node entries i,
          )
        ])
      ]

  add_nodes-IsIndex :
      (nodes : List Bytes) (m : List (Hash × Bytes)) → IsIndex m → IsIndex (add_nodes c nodes m)
  unfolding add_nodes
  add_nodes-IsIndex [] m i = i
  add_nodes-IsIndex (node ∷ nodes) m i = add_nodes-IsIndex nodes _ (or_insert-IsIndex node m i)

  add_storages-IsIndex :
      (ss : List StorageProof) (m : List (Hash × Bytes)) → IsIndex m → IsIndex (add_storages c ss m)
  unfolding add_storages
  add_storages-IsIndex [] m i = i
  add_storages-IsIndex (s ∷ ss) m i = add_storages-IsIndex ss _ (add_nodes-IsIndex s.proof m i)

  add_acc-IsIndex :
      (acc : Option AccountProof) (m : List (Hash × Bytes)) → IsIndex m → IsIndex (add_acc c acc m)
  add_acc-IsIndex none m i = i
  add_acc-IsIndex (some acc) m i =
      add_storages-IsIndex acc.storage_proof _ (add_nodes-IsIndex acc.account_proof m i)

  add_states-IsIndex :
      (states : List FetchStateResult) (m : List (Hash × Bytes))
      → IsIndex m
      → IsIndex (add_states c states m)
  unfolding add_states
  add_states-IsIndex [] m i = i
  add_states-IsIndex (state ∷ states) m i =
      add_states-IsIndex states _ (add_acc-IsIndex state.acc m i)

  into_values-AreBelow :
      (hash : Hash) (m : List (Hash × Bytes))
      → IsBelow hash m
      → IsIndex m
      → AreBelow hash (into_values m)
  into_values-AreBelow hash [] below i = tt
  into_values-AreBelow hash ((key, value) ∷ m) (l, below) (named, rest, i) =
      (omega (arith, l, named), into_values-AreBelow hash m below i)

  into_values-IsIncreasing : (m : List (Hash × Bytes)) → IsIndex m → IsIncreasing (into_values m)
  into_values-IsIncreasing [] i = tt
  into_values-IsIncreasing ((key, value) ∷ m) (named, below, i) = (
    into_values-AreBelow (c.keccak_hash value) m (rw (← named) below) i,
    into_values-IsIncreasing m i,
  )

  -- The nodes of a proof of block are collected by increasing hashes, so that no two have the same
  -- hash, whatever proofs they come from.
  pub from_proof-IsIncreasing :
      {Block : Type 0} (chain_id : ℕ) (blk : Block) (root : Hash) (hashes : List (ℕ × Hash))
      (codes : List (Hash × Bytes)) (states : List FetchStateResult)
      → IsIncreasing (from_proof c chain_id blk root hashes codes states).payload.mpt_nodes
  unfolding from_proof new
  from_proof-IsIncreasing chain_id blk root hashes codes states =
      into_values-IsIncreasing (add_states c states []) (add_states-IsIndex states [] tt)
