-- ===== src/BlockBuilder/Laws/Truncate.antt =====
-- `truncate_and_revert`: what it leaves, and that it undoes commits.
use evm_executor_rs.Base.{
  ℕ, zero, suc, ◌+◌, ◌≤◌, ◌<◌, ◌≡◌, refl, ap, le→ltb, List, [], ◌∷◌, arith, some, u64_mod, length,
  take, drop, length-take,
}
use evm_executor_rs.External.Traits.{Hash}
use evm_executor_rs.External.Host.{Host}
use evm_executor_rs.BlockBuilder.Engine.{Engine}
use evm_executor_rs.BlockBuilder.Builder.{BlockBuilder, refund_gas, refund_all, truncate_and_revert}
use evm_executor_rs.BlockBuilder.Laws.Gas.{total_gas, IsConsistent}

module _ (h : Host) (e : Engine h) where
  -- Truncation gives back the gas of the receipts that it drops.
  refund_all-cumulative :
      (rs : List e.Receipt) (b : BlockBuilder h e) (rest : ℕ)
      → b.cumulative_gas_used ≡ rest + total_gas e rs
      → b.cumulative_gas_used < u64_mod
      → refund_all h e rs b ≡ record b { cumulative_gas_used = rest }
  unfolding refund_all refund_gas
  refund_all-cumulative [] b rest eq fits =
      ap (λ (n : ℕ). record b { cumulative_gas_used = n }) (omega (arith, eq))
  refund_all-cumulative (r ∷ rs) b rest eq fits =
      refund_all-cumulative rs (refund_gas h e (e.gas_used r) b) rest (ground (arith, eq, fits))
        (omega arith)

  total_gas-take-drop :
      (n : ℕ) (rs : List e.Receipt)
      → total_gas e rs ≡ total_gas e (take n rs) + total_gas e (drop n rs)
  total_gas-take-drop zero rs = omega arith
  total_gas-take-drop (suc n) [] = omega arith
  total_gas-take-drop (suc n) (r ∷ rs) = omega (arith, total_gas-take-drop n rs)

  -- The builder cut down to its first transactions.
  abbrev pub truncated : ℕ → Hash → BlockBuilder h e → BlockBuilder h e
  truncated n root b = record b {
    cumulative_gas_used = total_gas e (take n b.receipts);
    txs = take n b.txs;
    receipts = take n b.receipts;
    statedb = h.db.revert root b.statedb;
  }

  truncate-truncated :
      (n : ℕ) (root : Hash) (b : BlockBuilder h e)
      → h.header_trait.gas_limit b.header < u64_mod
      → IsConsistent e b
      → n ≤ length b.receipts
      → truncate_and_revert h e n root b ≡ some (truncated n root b)
  unfolding truncate_and_revert
  truncate-truncated n root b fits c within = rw (
    le→ltb (length b.receipts) n within,
    refund_all-cumulative (drop n b.receipts) b (total_gas e (take n b.receipts))
        (omega (arith, c.counted, total_gas-take-drop n b.receipts)) (omega (arith, c.bounded)),
  )

  truncated-IsConsistent :
      (n : ℕ) (root : Hash) (b : BlockBuilder h e)
      → IsConsistent e b
      → IsConsistent e (truncated n root b)
  truncated-IsConsistent n root b c = record {
    paired = omega (arith, c.paired, length-take n b.txs, length-take n b.receipts);
    counted = refl;
    bounded = omega (arith, c.counted, c.bounded, total_gas-take-drop n b.receipts);
  }

  -- Cutting a consistent builder down to a number of transactions that it holds does not panic,
  -- keeps the first ones with their receipts and exactly their gas, reverts the database, and
  -- leaves a consistent builder.
  pub truncate_and_revert-truncated :
      (n : ℕ) (root : Hash) (b : BlockBuilder h e)
      → h.header_trait.gas_limit b.header < u64_mod
      → IsConsistent e b
      → n ≤ length b.receipts
      → (truncate_and_revert h e n root b ≡ some (truncated n root b))
        × IsConsistent e (truncated n root b)
  truncate_and_revert-truncated n root b fits c within =
      (truncate-truncated n root b fits c within, truncated-IsConsistent n root b c)
