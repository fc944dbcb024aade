-- ===== src/TxExecutor/Laws/Gas.antt =====
-- The gas that an executed transaction uses.
use evm_executor_rs.Base.{
  ◌≤◌, ◌≡◌, subst, sym, false, Option, none, some, ok, arith, pure, Yields, bind-Yields,
  second-Yields,
}
use evm_executor_rs.External.Traits.{Address}
use evm_executor_rs.External.Evm.{EvmLaws, Ends}
use evm_executor_rs.External.Host.{Host}
use evm_executor_rs.Types.{ExecuteResult}
use evm_executor_rs.StateProxy
use evm_executor_rs.StateProxy.Ends.{run-Ends}
use evm_executor_rs.TxExecutor.Machine.{TxExecutor, Vars, on_proxy}
use evm_executor_rs.TxExecutor.Checks.{check_nonce, check_base_fee, buy_gas}
use evm_executor_rs.TxExecutor.Execute.{transact, result_of, exec_tx, settle, execute}
use evm_executor_rs.TxExecutor.Laws.Whole.{block_base_fee, settle-Returns}

module _ (h : Host) (evm_laws : EvmLaws h.evm) (self : TxExecutor h) where
  abbrev Frugal : ExecuteResult → Type 0
  Frugal result = result.used_gas ≤ h.tx_trait.gas self.ctx.tx

  transact-Ends :
      (to : Option Address)
      → Ends (λ t. t.used_gas ≤ h.tx_trait.gas self.ctx.tx) (transact h self to)
  transact-Ends none = evm_laws.create_gas _ _ _ _ _ _ _
  transact-Ends (some to) = evm_laws.call_gas _ _ _ _ _ _ _ _

  exec_tx-Yields : self.ctx.no_gas_fee ≡ false → Yields (exec_tx h self) Frugal
  unfolding exec_tx result_of
  exec_tx-Yields charged =
      let session = transact h self (h.tx_trait.to self.ctx.tx) in
      bind-Yields (on_proxy h (StateProxy.run h self.ctx session)) (λ t. pure (result_of h self t))
        (λ t. t.used_gas ≤ h.tx_trait.gas self.ctx.tx) Frugal
        (λ vars.
          run-Ends h self.ctx _ session (transact-Ends (h.tx_trait.to self.ctx.tx)) vars.state_db)
        (λ t frugal vars b e. ground (arith, e))

  -- A transaction that is executed for a fee uses no more gas than it has bought, if the
  -- interpreter keeps to its limit.
  pub execute_used_gas :
      self.ctx.no_gas_fee ≡ false
      → (vars : Vars h) {result : ExecuteResult} → (execute h self vars).0 ≡ ok result
      → result.used_gas ≤ h.tx_trait.gas self.ctx.tx
  unfolding execute
  execute_used_gas charged vars {result} e =
      second-Yields (check_nonce h self false) _ Frugal
        (λ _. second-Yields (check_base_fee h self (block_base_fee self)) _ Frugal (λ _.
          second-Yields (buy_gas h self) _ Frugal (λ _.
            bind-Yields (exec_tx h self) (settle h self (block_base_fee self)) Frugal Frugal
              (exec_tx-Yields charged)
              (λ r frugal v b eb.
                subst Frugal (sym ((settle-Returns h self (block_base_fee self) r).value v b eb))
                  frugal))))
        vars result e
