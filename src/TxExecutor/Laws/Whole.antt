-- ===== src/TxExecutor/Laws/Whole.antt =====
-- The whole of `execute`: on success the ledger is the one that the rules of a transaction give.
use evm_executor_rs.Base.{ℕ, ap, false, none, ltb, or_panic}
use evm_executor_rs.External.Host.{Host}
use evm_executor_rs.External.StateDb.{StateDbLaws}
use evm_executor_rs.Types.{ExecuteResult, nonce_too_low, nonce_too_high, insufficient_base_fee}
use Prim.Native.Nat.{compare, Ordering}
use evm_executor_rs.StateProxy
use evm_executor_rs.StateProxy.Reads.{run-view}
use evm_executor_rs.TxExecutor.Machine.{TxExecutor, or_zero}
use evm_executor_rs.TxExecutor.Checks.{by_order, check_nonce, check_base_fee, refund_gas}
use evm_executor_rs.TxExecutor.Changes.{apply_states}
use evm_executor_rs.TxExecutor.Execute.{
  charge, calculate_txfee, pay_miner, transact, exec_tx, result_of, settle, execute,
}
use evm_executor_rs.TxExecutor.Laws.Effects.{
  Books, on_ledger, Does, Returns, pure-Does, bind-Does, or_panic-Does, on_db-Reads, on_proxy-Keeps,
  throw-Does, if-Does, Does-eq, Does-returned, bind-Returns, pure-Returns,
}
use evm_executor_rs.TxExecutor.Laws.Changes.{all_changed, apply_states-Does}
use evm_executor_rs.TxExecutor.Laws.Fees.{
  txfee, bought, charged, to_miner, refunded, calculate_txfee_value, buy_gas-Does, charge-Does,
  pay_miner-Does, refund_gas-Does,
}

module _ {h : Host} (self : TxExecutor h) where
  -- What happens to the books once the interpreter has run.
  abbrev pub settled_for : ℕ → ExecuteResult → Books → Books
  settled_for fee result b = refunded self (
      on_ledger (to_miner self self.ctx.miner fee) (
        on_ledger (all_changed self.ctx.caller result.success result.states)
          (charged self result.used_gas b)))

  abbrev pub block_base_fee : ℕ
  block_base_fee = or_zero (h.header_trait.base_fee self.ctx.header)

  abbrev pub settled : ExecuteResult → Books → Books
  settled result = settled_for (txfee self block_base_fee result.used_gas) result

module _ (h : Host) (self : TxExecutor h) where
  pub settle-Returns :
      (base_fee : ℕ) (result : ExecuteResult) → Returns (settle h self base_fee result) result
  unfolding settle
  settle-Returns base_fee result = bind-Returns (charge h self result.used_gas) λ _.
      bind-Returns (or_panic (calculate_txfee h self result.used_gas base_fee)) λ fee.
        bind-Returns (apply_states h self result) λ _.
          bind-Returns (pay_miner h self self.ctx.miner fee)
            λ _. bind-Returns (refund_gas h self) λ _. pure-Returns result

module _ (h : Host) (laws : StateDbLaws h.db) (self : TxExecutor h) where
  pub settle-Does :
      (result : ExecuteResult)
      → Does h laws (settle h self (block_base_fee self) result) (settled self)
  unfolding settle
  settle-Does result =
      Does-returned {c = result}
        (bind-Does (charge-Does h laws self result.used_gas) λ _.
          or_panic-Does (calculate_txfee h self result.used_gas (block_base_fee self)) _ λ fee e.
            Does-eq
              (ap {B = ExecuteResult → Books → Books}
                (λ f _ b. refunded self (
                  on_ledger (to_miner self self.ctx.miner f)
                    (on_ledger (all_changed self.ctx.caller result.success result.states) b)))
                (calculate_txfee_value self (block_base_fee self) result.used_gas e))
              (bind-Does (apply_states-Does h laws self result) λ _.
                bind-Does (pay_miner-Does h laws self self.ctx.miner fee)
                  λ _. bind-Does (refund_gas-Does h laws self) λ _. pure-Does result))
        (settle-Returns h self (block_base_fee self) result)

  by_order-Does : (o : Ordering) (n t : ℕ) → Does h laws (by_order h o n t) (λ _ b. b)
  by_order-Does Ordering.eq n t = pure-Does tt
  by_order-Does Ordering.gt n t = throw-Does (nonce_too_low n t) (λ _ b. b)
  by_order-Does Ordering.lt n t = throw-Does (nonce_too_high n t) (λ _ b. b)

  pub check_nonce-Does : Does h laws (check_nonce h self false) (λ _ b. b)
  unfolding check_nonce
  check_nonce-Does =
      bind-Does
        (on_db-Reads (h.db.get_nonce self.ctx.caller) (λ l. l.nonce self.ctx.caller)
          (laws.get_nonce-Reads self.ctx.caller))
        (λ nonce.
          by_order-Does (compare nonce (h.tx_trait.nonce self.ctx.tx)) nonce
            (h.tx_trait.nonce self.ctx.tx))

  pub check_base_fee-Does : (base_fee : ℕ) → Does h laws (check_base_fee h self base_fee) (λ _ b. b)
  unfolding check_base_fee
  check_base_fee-Does base_fee =
      let tx = self.ctx.tx in
      if-Does (ltb (h.tx_trait.max_fee_per_gas tx) base_fee)
        (or_panic-Does (h.tx_trait.effective_gas_tip tx none) _ λ tip e.
          throw-Does
            (insufficient_base_fee (h.tx_trait.hash tx) (h.parse_ether base_fee 9)
              (h.parse_ether tip 9) (h.header_trait.number self.ctx.header))
            (λ _ b. b))
        (pure-Does tt)

  pub exec_tx-Does : Does h laws (exec_tx h self) (λ _ b. b)
  unfolding exec_tx
  exec_tx-Does =
      bind-Does
        (on_proxy-Keeps (StateProxy.run h self.ctx (transact h self (h.tx_trait.to self.ctx.tx)))
          (run-view h laws self.ctx (transact h self (h.tx_trait.to self.ctx.tx))))
        (λ run. pure-Does (result_of h self run))

  pub execute-Does : Does h laws (execute h self) (λ result b. settled self result (bought self b))
  unfolding execute
  execute-Does = bind-Does check_nonce-Does λ _.
      bind-Does (check_base_fee-Does (block_base_fee self)) λ _.
        bind-Does (buy_gas-Does h laws self)
          λ _. bind-Does exec_tx-Does λ result. settle-Does result
