-- ===== src/Examples/Blocks.antt =====
-- A proof of block in the small world of proofs.
use evm_executor_rs.Base.{ℕ, ◌≡◌, refl, none, some, List, [], ◌∷◌}
use mathlib.Core.List.Perm
use evm_executor_rs.External.Traits.{Bytes}
use evm_executor_rs.Pob.{Pob, FetchStateResult, from_proof, state_hash}
use evm_executor_rs.Pob.Nodes.{IsIncreasing, from_proof-IsIncreasing}
use evm_executor_rs.Pob.Order.{with_nodes, state_hash_permuted}
use evm_executor_rs.Examples.Proofs.{crypto}

abbrev block : ℕ
block = 8

-- Nodes that occur in two proofs, and out of order.
abbrev states : List FetchStateResult
states =
    record {
      acc = some (record {
        account_proof = (9 ∷ []) ∷ (2 ∷ []) ∷ [];
        storage_proof = record { proof = (4 ∷ 1 ∷ []) ∷ (9 ∷ []) ∷ [] } ∷ [];
      });
    }
    ∷ record { acc = none }
    ∷ []

from_proof-IsIncreasing_example :
    IsIncreasing crypto (from_proof crypto 1 block 55 [] [] states).payload.mpt_nodes
from_proof-IsIncreasing_example = from_proof-IsIncreasing crypto 1 block 55 [] [] states

abbrev fresh : Pob ℕ
fresh = record {
  block = block;
  payload = record {
    chain_id = 1;
    prev_state_root = 55;
    block_hashes = [];
    mpt_nodes = (4 ∷ []) ∷ (2 ∷ []) ∷ [];
    codes = [];
  };
  state_hash = none;
}

abbrev swapped : List Bytes
swapped = (2 ∷ []) ∷ (4 ∷ []) ∷ []

state_hash_permuted_example :
    (state_hash crypto fresh ≡ state_hash crypto (with_nodes swapped fresh))
    × (state_hash crypto (state_hash crypto fresh).1 ≡ state_hash crypto fresh)
state_hash_permuted_example =
    state_hash_permuted crypto fresh swapped refl (Perm.swap (2 ∷ []) (4 ∷ []) [])
