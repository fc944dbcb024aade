-- ===== src/BlockBuilder/Laws/Undo.antt =====
-- Truncating to an earlier length undoes the commits since.
use evm_executor_rs.Base.{
  ℕ, ◌≤◌, ◌<◌, ◌≡◌, refl, sym, ap, subst, ◌∙◌, List, [], ◌∷◌, ◌++◌, arith, ok, err, panic, some,
  u64_mod, length, take, length-append, take-append, Outcome, after,
}
use mathlib.Core.List.{append-nil, append_assoc}
use evm_executor_rs.External.Traits.{Hash}
use evm_executor_rs.External.Evm.{EvmLaws}
use evm_executor_rs.External.Host.{Host}
use evm_executor_rs.Types.{ExecuteResult}
use evm_executor_rs.BlockBuilder.Engine.{Engine}
use evm_executor_rs.BlockBuilder.Builder.{
  BlockBuilder, CommitError, execute_tx, cost_gas, record_result, commit, truncate_and_revert,
}
use evm_executor_rs.BlockBuilder.Laws.Interface.{EngineLaws, TxLaws}
use evm_executor_rs.BlockBuilder.Laws.Gas.{IsConsistent, execute_tx-frame, commit-IsConsistent}
use evm_executor_rs.BlockBuilder.Laws.Truncate.{truncated, truncate_and_revert-truncated}

module _ {h : Host} {e : Engine h} where
  -- A later builder: transactions and receipts are added behind those of `b`, and nothing else has
  -- changed but the database and the gas.
  pub record Extends (b b' : BlockBuilder h e) : Type 0 where
    pub new_txs : List h.Tx
    pub new_receipts : List e.Receipt
    pub gas : ℕ
    pub db : h.db.State
    pub extended : b' ≡ record b {
      cumulative_gas_used = gas;
      statedb = db;
      txs = b.txs ++ new_txs;
      receipts = b.receipts ++ new_receipts;
    }

  Extends-refl : (b : BlockBuilder h e) (d : h.db.State) → Extends b (record b { statedb = d })
  Extends-refl b d = record {
    new_txs = [];
    new_receipts = [];
    gas = b.cumulative_gas_used;
    db = d;
    extended = sym (λ i. record b {
      statedb = d;
      txs = append-nil b.txs i;
      receipts = append-nil b.receipts i;
    });
  }

  Extends-trans : {a b c : BlockBuilder h e} → Extends a b → Extends b c → Extends a c
  Extends-trans {a} {b} {c} f g = record {
    new_txs = f.new_txs ++ g.new_txs;
    new_receipts = f.new_receipts ++ g.new_receipts;
    gas = g.gas;
    db = g.db;
    extended =
        g.extended
        ∙ ap
            (λ (x : BlockBuilder h e). record x {
              cumulative_gas_used = g.gas;
              statedb = g.db;
              txs = x.txs ++ g.new_txs;
              receipts = x.receipts ++ g.new_receipts;
            })
            f.extended
        ∙ (λ i. record a {
          cumulative_gas_used = g.gas;
          statedb = g.db;
          txs = append_assoc a.txs f.new_txs g.new_txs i;
          receipts = append_assoc a.receipts f.new_receipts g.new_receipts i;
        });
  }

module _ (h : Host) (e : Engine h) where
  recorded-Extends :
      (tx : h.Tx) (b : BlockBuilder h e) (r : Outcome (CommitError h.db.Error) ExecuteResult)
      (d : h.db.State)
      → Extends b (after (λ result. record_result h e tx result) r (record b { statedb = d })).1
  unfolding record_result cost_gas
  recorded-Extends tx b (ok result) d = record {
    new_txs = tx ∷ [];
    new_receipts = _ ∷ [];
    gas = _;
    db = d;
    extended = refl;
  }
  recorded-Extends tx b (err x) d = Extends-refl b d
  recorded-Extends tx b panic d = Extends-refl b d

  commit-Extends : (tx : h.Tx) (b : BlockBuilder h e) → Extends b (commit h e tx b).1
  unfolding commit
  commit-Extends tx b =
      let t = execute_tx h e tx b in
      subst (λ b'. Extends b (after (λ result. record_result h e tx result) t.0 b').1)
        (sym (execute_tx-frame h e tx b)) (recorded-Extends tx b t.0 t.1.statedb)

  -- A number of commits, whatever becomes of each.
  pub commit_all : List h.Tx → BlockBuilder h e → BlockBuilder h e
  commit_all [] b = b
  commit_all (tx ∷ txs) b = commit_all txs (commit h e tx b).1

  commit_all-Extends : (txs : List h.Tx) (b : BlockBuilder h e) → Extends b (commit_all txs b)
  unfolding commit_all
  commit_all-Extends [] b = Extends-refl b b.statedb
  commit_all-Extends (tx ∷ txs) b =
      Extends-trans (commit-Extends tx b) (commit_all-Extends txs (commit h e tx b).1)

  -- Cut back to what it extended, a builder is that again.
  truncated-extended :
      (b : BlockBuilder h e)
      → IsConsistent e b
      → (ts : List h.Tx) (rs : List e.Receipt) (gas : ℕ) (d : h.db.State) (root : Hash)
      → truncated h e (length b.txs) root (record b {
        cumulative_gas_used = gas;
        statedb = d;
        txs = b.txs ++ ts;
        receipts = b.receipts ++ rs;
      })
        ≡ record b { statedb = h.db.revert root d }
  truncated-extended b c ts rs gas d root =
      let first : take (length b.txs) (b.receipts ++ rs) ≡ b.receipts =
        rw c.paired (take-append b.receipts rs) in
      rw (take-append b.txs ts, first, ← c.counted)

  module _ (evm_laws : EvmLaws h.evm) (tx_laws : TxLaws h) (laws : EngineLaws h e) where
    commit_all-IsConsistent :
        (txs : List h.Tx) (b : BlockBuilder h e)
        → h.header_trait.gas_limit b.header < u64_mod
        → IsConsistent e b
        → IsConsistent e (commit_all txs b)
    unfolding commit_all
    commit_all-IsConsistent [] b fits c = c
    commit_all-IsConsistent (tx ∷ txs) b fits c =
        commit_all-IsConsistent txs (commit h e tx b).1
          (subst (λ hd. h.header_trait.gas_limit hd < u64_mod)
            (ap (λ b'. b'.header) (sym (commit-Extends tx b).extended)) fits)
          (commit-IsConsistent h e evm_laws tx_laws laws tx b fits c)

    -- After any commits on a consistent builder whose gas limit fits in 64 bits, truncating to the
    -- transactions that it held gives that builder back, its gas included; only its database is the
    -- reverted one. Interpreter, transactions and engine are as for `commit-IsConsistent`.
    pub truncate_and_revert-commit_all :
        (txs : List h.Tx) (root : Hash) (b : BlockBuilder h e)
        → h.header_trait.gas_limit b.header < u64_mod
        → IsConsistent e b
        → truncate_and_revert h e (length b.txs) root (commit_all txs b)
          ≡ some (record b { statedb = h.db.revert root (commit_all txs b).statedb })
    truncate_and_revert-commit_all txs root b fits c =
        let b' = commit_all txs b in
        let x = commit_all-Extends txs b in
        let fits' =
          subst (λ hd. h.header_trait.gas_limit hd < u64_mod) (ap (λ z. z.header) (sym x.extended))
            fits in
        let within : length b.txs ≤ length b'.receipts =
          subst (λ (z : BlockBuilder h e). length b.txs ≤ length z.receipts) (sym x.extended)
            (omega (arith, c.paired, length-append b.receipts x.new_receipts)) in
        let cut =
          truncate_and_revert-truncated h e (length b.txs) root b' fits'
            (commit_all-IsConsistent txs b fits c) within in
        cut.0
        ∙ ap some (
            subst
              (λ z.
                truncated h e (length b.txs) root z
                ≡ record b { statedb = h.db.revert root z.statedb })
              (sym x.extended) (truncated-extended b c x.new_txs x.new_receipts x.gas x.db root))
