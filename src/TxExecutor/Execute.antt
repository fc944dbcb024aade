-- ===== src/TxExecutor/Execute.antt =====
-- `exec_tx`, which runs the interpreter, and `execute`.
use evm_executor_rs.Base.{
  ℕ, ◌+◌, false, Option, none, some, List, [], ◌∷◌, map, min, ltb, ◌&&◌, if◌then◌else◌, add_u64,
  sub_u64, ok, pure, or_panic, ◌>>=◌, ◌>>◌,
}
use evm_executor_rs.External.Traits.{Address, Hash, AccessTuple}
use evm_executor_rs.External.Evm.{EvmLog, Transacted, Session}
use evm_executor_rs.External.Host.{Host}
use evm_executor_rs.Types.{Log, ExecuteResult}
use evm_executor_rs.StateProxy
use evm_executor_rs.TxExecutor.Machine.{TxExecutor, Exec, or_zero, on_db, on_proxy}
use evm_executor_rs.TxExecutor.Checks.{check_nonce, check_base_fee, buy_gas, refund_gas}
use evm_executor_rs.TxExecutor.Changes.{apply_states}

-- The logs of a run, numbered from a start; what the block decides is left at its default.
unfoldable pub number_logs : ℕ → List EvmLog → List Log
number_logs log_index [] = []
number_logs log_index (log ∷ logs) =
    record {
      address = log.address;
      topics = log.topics;
      payload = log.payload;
      block_number = 0;
      transaction_hash = 0;
      transaction_index = 0;
      block_hash = 0;
      log_index = log_index;
      removed = false;
    }
    ∷ number_logs (log_index + 1) logs

abbrev access_pairs : Option (List AccessTuple) → List (Address × List Hash)
access_pairs none = []
access_pairs (some al) = map (λ tat. (tat.address, tat.storage_keys)) al

module _ (h : Host) (self : TxExecutor h) where
  unfoldable pub generate_access_list : List (Address × List Hash)
  generate_access_list = access_pairs (h.tx_trait.access_list self.ctx.tx)

  abbrev pub transact : Option Address → Session Transacted
  transact (some to) =
      h.evm.transact_call self.ctx.cfg self.ctx.precompile self.ctx.caller to
        (h.tx_trait.value self.ctx.tx) (h.tx_trait.input self.ctx.tx) (h.tx_trait.gas self.ctx.tx)
        generate_access_list
  transact none =
      h.evm.transact_create self.ctx.cfg self.ctx.precompile self.ctx.caller
        (h.tx_trait.value self.ctx.tx) (h.tx_trait.input self.ctx.tx) (h.tx_trait.gas self.ctx.tx)
        generate_access_list

  -- What `exec_tx` makes of a run: without a gas fee the refunded gas counts as used.
  unfoldable pub result_of : Transacted → ExecuteResult
  result_of run = record {
    success = run.is_succeed;
    used_gas = if self.ctx.no_gas_fee then add_u64 run.used_gas run.refunded_gas else run.used_gas;
    err = run.output;
    logs = number_logs 0 run.logs;
    states = run.applies;
  }

  unfoldable pub exec_tx : Exec h ExecuteResult
  exec_tx = do
    run ← on_proxy h (StateProxy.run h self.ctx (transact (h.tx_trait.to self.ctx.tx)))
    pure (result_of run)

  -- `self.gas -= result.used_gas`, down to 0 where an overcommitment is allowed.
  unfoldable pub charge : ℕ → Exec h (Unit {0})
  charge used_gas vars =
      let overdrawn = ltb vars.gas used_gas && self.ctx.gas_overcommit in
      (ok tt, record vars { gas = if overdrawn then 0 else sub_u64 vars.gas used_gas })

  unfoldable pub calculate_txfee : ℕ → ℕ → Option ℕ
  calculate_txfee gas base_fee =
      elim (h.uint.sub (h.tx_trait.max_fee_per_gas self.ctx.tx) base_fee) [
        | none ↦ none
        | some room ↦
            elim (h.uint.mul gas (min (h.tx_trait.max_priority_fee_per_gas self.ctx.tx) room)) [
              | none ↦ none
              | some tip ↦ h.uint.add tip (or_zero self.ctx.extra_fee)
            ]
      ]

  abbrev pub pay_miner : Option Address → ℕ → Exec h (Unit {0})
  pay_miner none txfee = pure tt
  pay_miner (some miner) txfee = on_db h (h.db.add_balance miner txfee)

  -- What `execute` does once the interpreter has run.
  unfoldable pub settle : ℕ → ExecuteResult → Exec h ExecuteResult
  settle base_fee result = do
    charge result.used_gas
    txfee ← or_panic (calculate_txfee result.used_gas base_fee)
    apply_states h self result
    pay_miner self.ctx.miner txfee
    refund_gas h self
    pure result

  unfoldable pub execute : Exec h ExecuteResult
  execute =
      let base_fee = or_zero (h.header_trait.base_fee self.ctx.header) in
      do
        check_nonce h self false
        check_base_fee h self base_fee
        buy_gas h self
        result ← exec_tx
        settle base_fee result
