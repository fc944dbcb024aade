-- ===== src/BlockBuilder/Builder.antt =====
-- The struct `BlockBuilder` and its methods but `prefetch`. u64 arithmetic wraps.
use evm_executor_rs.Base.{
  ℕ, ◌-◌, false, Option, none, some, List, [], ◌∷◌, ◌++◌, ltb, if◌then◌else◌, add_u64, sub_u64,
  Outcome, ok, err, panic, Action, ◌>>=◌, ◌>>◌, length, take, drop,
}
use evm_executor_rs.External.Traits.{Address, Hash, Bytes, Signer}
use evm_executor_rs.External.Host.{Host}
use evm_executor_rs.Types.{ExecuteError, TxContext, ExecuteResult}
use evm_executor_rs.TxExecutor.Machine.{new}
use evm_executor_rs.TxExecutor.Execute
use evm_executor_rs.BlockBuilder.Engine.{Engine}

pub data CommitError (E : Type 0) : Type 0 where
  -- gas pool, gas limit
  not_enough_gas_limit : ℕ → ℕ → CommitError E
  execute : ExecuteError E → CommitError E

-- `prefetcher` is the method `get_hash` of the prefetcher.
pub record BlockBuilder (h : Host) (e : Engine h) : Type 0 where
  pub engine : e.Self
  pub header : h.Header
  pub statedb : h.db.State
  pub signer : Signer
  pub miner : Option Address
  pub evm_cfg : h.evm.Config
  pub precompile : h.evm.Precompiles
  pub cumulative_gas_used : ℕ
  pub prefetcher : ℕ → ℕ → Hash
  pub txs : List h.Tx
  pub receipts : List e.Receipt
  pub withdrawals : Option (List e.Withdrawal)

-- `a.saturating_sub(b)` is the truncated difference.
module _ (h : Host) (e : Engine h) where
  abbrev pub Build : Type 0 → Type 0
  Build A = Action (BlockBuilder h e) (CommitError h.db.Error) A

  abbrev pub get_self : Build (BlockBuilder h e)
  get_self b = (ok b, b)

  -- `BlockBuilder::new`, behind the call of `author`.
  abbrev build_new :
      e.Self
      → h.db.State
      → (ℕ → ℕ → Hash)
      → h.Header
      → Outcome Bytes (Option Address)
      → Outcome Bytes (BlockBuilder h e)
  build_new engine statedb prefetcher header (ok miner) = ok (record {
    engine = engine;
    header = header;
    statedb = statedb;
    signer = e.signer engine;
    miner = miner;
    evm_cfg = e.evm_config engine;
    precompile = e.precompile engine;
    cumulative_gas_used = 0;
    prefetcher = prefetcher;
    txs = [];
    receipts = [];
    withdrawals = none;
  })
  build_new engine statedb prefetcher header (err x) = err x
  build_new engine statedb prefetcher header panic = panic

  unfoldable pub new_builder :
      e.Self → h.db.State → (ℕ → ℕ → Hash) → h.Header → Outcome Bytes (BlockBuilder h e)
  new_builder engine statedb prefetcher header =
      build_new engine statedb prefetcher header (e.author engine header)

  -- The context of a transaction in `execute_tx`, as the engine completes it.
  unfoldable pub context_of : BlockBuilder h e → h.Tx → TxContext h
  context_of b tx = e.tx_context b.engine (record {
    chain_id = b.signer.chain_id;
    caller = h.tx_trait.sender tx b.signer;
    cfg = b.evm_cfg;
    precompile = b.precompile;
    tx = tx;
    header = b.header;
    no_gas_fee = false;
    extra_fee = none;
    gas_overcommit = false;
    block_hash_getter = b.prefetcher;
    miner = b.miner;
    block_base_fee = 0;
    difficulty = 0;
  })

  -- `block_gas_limit.as_u64().saturating_sub(self.cumulative_gas_used)`
  abbrev pub gas_pool : BlockBuilder h e → ℕ
  gas_pool b = h.header_trait.gas_limit b.header - b.cumulative_gas_used

  abbrev pub check_pool : TxContext h → h.Tx → Build (Unit {0})
  check_pool ctx tx b =
      if ctx.no_gas_fee
      then (ok tt, b)
      else if ltb (gas_pool b) (h.tx_trait.gas_limit tx)
      then (err (not_enough_gas_limit (gas_pool b) (h.tx_trait.gas_limit tx)), b)
      else (ok tt, b)

  abbrev pub commit_error :
      {A : Type 0} → Outcome (ExecuteError h.db.Error) A → Outcome (CommitError h.db.Error) A
  commit_error (ok a) = ok a
  commit_error (err x) = err (execute x)
  commit_error panic = panic

  -- `TxExecutor::new(ctx, state_db).execute()` on the builder's database.
  abbrev pub run_tx : TxContext h → Build ExecuteResult
  run_tx ctx b =
      let (self, vars) = new h ctx b.statedb in
      let r = Execute.execute h self vars in (commit_error r.0, record b { statedb = r.1.state_db })

  unfoldable pub execute_tx : h.Tx → Build ExecuteResult
  execute_tx tx = do b ← get_self; let ctx = context_of b tx; check_pool ctx tx; run_tx ctx

  unfoldable pub cost_gas : ℕ → BlockBuilder h e → BlockBuilder h e
  cost_gas gas b = record b { cumulative_gas_used = add_u64 b.cumulative_gas_used gas }

  unfoldable pub refund_gas : ℕ → BlockBuilder h e → BlockBuilder h e
  refund_gas gas b = record b { cumulative_gas_used = sub_u64 b.cumulative_gas_used gas }

  -- What `commit` does with a result.
  unfoldable pub record_result : h.Tx → ExecuteResult → Build e.Receipt
  unfolding cost_gas
  record_result tx result b =
      let receipt =
        e.build_receipt b.engine b.cumulative_gas_used result (length b.txs) tx b.header in
      let b' = cost_gas result.used_gas b in
      (ok receipt, record b' { receipts = b'.receipts ++ receipt ∷ []; txs = b'.txs ++ tx ∷ [] })

  unfoldable pub commit : h.Tx → Build e.Receipt
  commit tx = execute_tx tx >>= λ result. record_result tx result

  unfoldable pub refund_all : List e.Receipt → BlockBuilder h e → BlockBuilder h e
  unfolding refund_gas
  refund_all [] b = b
  refund_all (receipt ∷ receipts) b = refund_all receipts (refund_gas (e.gas_used receipt) b)

  -- `&self.receipts[tx_len..]` panics beyond the end.
  unfoldable pub truncate_and_revert : ℕ → Hash → BlockBuilder h e → Option (BlockBuilder h e)
  truncate_and_revert tx_len state_root b =
      let b' = refund_all (drop tx_len b.receipts) b in
      if ltb (length b.receipts) tx_len
      then none
      else some (record b' {
        txs = take tx_len b'.txs;
        receipts = take tx_len b'.receipts;
        statedb = h.db.revert state_root b'.statedb;
      })
