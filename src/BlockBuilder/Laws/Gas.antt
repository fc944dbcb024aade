-- ===== src/BlockBuilder/Laws/Gas.antt =====
-- The gas of a block: what `commit` and `truncate_and_revert` keep true of the builder.
use evm_executor_rs.Base.{
  ℕ, ◌+◌, ◌≤◌, ◌<◌, ◌≡◌, refl, sym, ap, subst, ◌∙◌, false, List, [], ◌∷◌, ◌++◌, arith, ok, err,
  panic, u64_mod, length, length-append, Outcome, after,
}
use evm_executor_rs.External.Evm.{EvmLaws}
use evm_executor_rs.External.Host.{Host}
use evm_executor_rs.Types.{ExecuteError, ExecuteResult, TxContext}
use evm_executor_rs.TxExecutor.Machine.{new}
use evm_executor_rs.TxExecutor.Execute
use evm_executor_rs.TxExecutor.Laws.Gas.{execute_used_gas}
use evm_executor_rs.BlockBuilder.Engine.{Engine}
use evm_executor_rs.BlockBuilder.Builder.{
  BlockBuilder, CommitError, context_of, gas_pool, run_tx, commit_error, execute_tx, cost_gas,
  record_result, commit,
}
use evm_executor_rs.BlockBuilder.Laws.Interface.{EngineLaws, TxLaws}

module _ {h : Host} (e : Engine h) where
  abbrev pub total_gas : List e.Receipt → ℕ
  total_gas [] = 0
  total_gas (r ∷ rs) = e.gas_used r + total_gas rs

  -- A receipt for each transaction, the gas of the receipts counted, and no more than the block
  -- may use.
  pub record IsConsistent (b : BlockBuilder h e) : Type 0 where
    pub paired : length b.txs ≡ length b.receipts
    pub counted : b.cumulative_gas_used ≡ total_gas b.receipts
    pub bounded : b.cumulative_gas_used ≤ h.header_trait.gas_limit b.header

  total_gas-append : (xs ys : List e.Receipt) → total_gas (xs ++ ys) ≡ total_gas xs + total_gas ys
  total_gas-append [] ys = omega arith
  total_gas-append (x ∷ xs) ys = omega (arith, total_gas-append xs ys)

module _ (h : Host) (e : Engine h) where
  commit_error-eq-ok :
      {A : Type 0} (r : Outcome (ExecuteError h.db.Error) A) (a : A)
      → commit_error h e r ≡ ok a
      → r ≡ ok a
  commit_error-eq-ok (ok b) a p = ground (arith, p)
  commit_error-eq-ok (err x) a p = absurd (ground (arith, p))
  commit_error-eq-ok panic a p = absurd (ground (arith, p))

  -- Executing a transaction changes nothing of the builder but its database.
  pub execute_tx-frame :
      (tx : h.Tx) (b : BlockBuilder h e)
      → (execute_tx h e tx b).1 ≡ record b { statedb = (execute_tx h e tx b).1.statedb }
  unfolding execute_tx
  execute_tx-frame tx b = ground arith

  module _ (evm_laws : EvmLaws h.evm) (tx_laws : TxLaws h) (laws : EngineLaws h e) where
    context_charged : (b : BlockBuilder h e) (tx : h.Tx) → (context_of h e b tx).no_gas_fee ≡ false
    unfolding context_of
    context_charged b tx = laws.keeps_fee b.engine _

    context_tx : (b : BlockBuilder h e) (tx : h.Tx) → (context_of h e b tx).tx ≡ tx
    unfolding context_of
    context_tx b tx = laws.keeps_tx b.engine _

    run_tx_gas :
        (ctx : TxContext h) (b : BlockBuilder h e) (result : ExecuteResult)
        → ctx.no_gas_fee ≡ false
        → (run_tx h e ctx b).0 ≡ ok result
        → result.used_gas ≤ h.tx_trait.gas ctx.tx
    unfolding new
    run_tx_gas ctx b result charged p =
        let fresh = new h ctx b.statedb in
        execute_used_gas h evm_laws fresh.0 charged fresh.1
          (commit_error-eq-ok (Execute.execute h fresh.0 fresh.1).0 result p)

    -- A transaction that is executed uses no more gas than the pool has left.
    execute_tx_pool :
        (tx : h.Tx) (b : BlockBuilder h e) (result : ExecuteResult)
        → (execute_tx h e tx b).0 ≡ ok result
        → result.used_gas ≤ gas_pool h e b
    unfolding execute_tx
    execute_tx_pool tx b result p =
        let ctx = context_of h e b tx in
        let charged = context_charged b tx in
        let limit : h.tx_trait.gas ctx.tx ≡ h.tx_trait.gas_limit tx =
          ap h.tx_trait.gas (context_tx b tx) ∙ tx_laws.gas-gas_limit tx in
        ground (arith, limit, charged, run_tx_gas ctx b result charged)

    record_result-IsConsistent :
        (tx : h.Tx) (b : BlockBuilder h e) (result : ExecuteResult)
        → h.header_trait.gas_limit b.header < u64_mod
        → IsConsistent e b
        → result.used_gas ≤ gas_pool h e b
        → IsConsistent e (record_result h e tx result b).1
    unfolding record_result cost_gas
    record_result-IsConsistent tx b result fits c pool =
        let gas =
          laws.receipt_gas b.engine b.cumulative_gas_used result (length b.txs) tx b.header in
        let receipt =
          e.build_receipt b.engine b.cumulative_gas_used result (length b.txs) tx b.header in
        record {
          paired = omega (
            arith,
            c.paired,
            length-append b.txs (tx ∷ []),
            length-append b.receipts (receipt ∷ []),
          );
          counted =
              ground
                (arith, gas, c.counted, c.bounded, total_gas-append e b.receipts (receipt ∷ []));
          bounded = ground (arith, c.bounded);
        }

    commit_from :
        (tx : h.Tx) (b : BlockBuilder h e) (r : Outcome (CommitError h.db.Error) ExecuteResult)
        (db : h.db.State)
        → h.header_trait.gas_limit b.header < u64_mod
        → IsConsistent e b
        → ((result : ExecuteResult) → r ≡ ok result → result.used_gas ≤ gas_pool h e b)
        → IsConsistent e
            (after (λ result. record_result h e tx result) r (record b { statedb = db })).1
    commit_from tx b (ok result) db fits c pool =
        record_result-IsConsistent tx (record b { statedb = db }) result fits
          (record { paired = c.paired; counted = c.counted; bounded = c.bounded })
          (pool result refl)
    commit_from tx b (err x) db fits c pool = record {
      paired = c.paired;
      counted = c.counted;
      bounded = c.bounded;
    }
    commit_from tx b panic db fits c pool = record {
      paired = c.paired;
      counted = c.counted;
      bounded = c.bounded;
    }

    -- Committing a transaction, whether it succeeds or fails, keeps the builder consistent: the
    -- block never holds more gas than the limit of its header. The limit fits in 64 bits, the
    -- interpreter keeps to the gas of its run, a transaction's two gas limits agree, and the engine
    -- charges for gas, leaves the transaction alone and reports the gas of a result.
    pub commit-IsConsistent :
        (tx : h.Tx) (b : BlockBuilder h e)
        → h.header_trait.gas_limit b.header < u64_mod
        → IsConsistent e b
        → IsConsistent e (commit h e tx b).1
    unfolding commit
    commit-IsConsistent tx b fits c =
        let t = execute_tx h e tx b in
        subst (λ b'. IsConsistent e (after (λ result. record_result h e tx result) t.0 b').1)
          (sym (execute_tx-frame tx b))
          (commit_from tx b t.0 t.1.statedb fits c (execute_tx_pool tx b))
