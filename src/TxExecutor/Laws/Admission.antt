-- ===== src/TxExecutor/Laws/Admission.antt =====
-- What `execute` admits: the conditions that its checks make sure of.
use evm_executor_rs.Base.{
  ℕ, ◌+◌, ◌*◌, ◌≤◌, ◌≡◌, Bool, true, false, arith, ltb, if◌then◌else◌, ok, pure, throw,
}
use Prim.Native.Nat.{compare}
use evm_executor_rs.External.Host.{Host}
use evm_executor_rs.External.StateDb.{StateDbLaws}
use evm_executor_rs.Types.{ExecuteResult, insufficient_funds}
use evm_executor_rs.TxExecutor.Machine.{TxExecutor, Vars, or_zero}
use evm_executor_rs.TxExecutor.Checks.{
  by_order, check_nonce, check_base_fee, check_balance, pay_gas, buy_gas,
}
use evm_executor_rs.TxExecutor.Execute.{execute}
use evm_executor_rs.TxExecutor.Laws.Effects.{map_err-eq-ok}
use evm_executor_rs.TxExecutor.Laws.Fees.{add_value, mul_value, checked-Does, add_gas-Does}
use evm_executor_rs.TxExecutor.Laws.Whole.{check_nonce-Does, check_base_fee-Does, block_base_fee}
use evm_executor_rs.TxExecutor.Laws.Needs.{
  Needs, Needs-mono, first-Needs, second-Needs, read-Needs, or_panic-Needs,
}

module _ {h : Host} (self : TxExecutor h) where
  -- What the caller must be able to pay: the gas at the fee cap, the value and the extra fee.
  abbrev pub max_cost : ℕ
  max_cost =
      h.tx_trait.gas self.ctx.tx * h.tx_trait.max_fee_per_gas self.ctx.tx
      + h.tx_trait.value self.ctx.tx
      + or_zero self.ctx.extra_fee

  -- What the caller pays before the run.
  abbrev pub prepaid : ℕ
  prepaid = or_zero self.ctx.extra_fee + h.tx_trait.gas self.ctx.tx * self.gas_price

module _ (h : Host) (laws : StateDbLaws h.db) (self : TxExecutor h) where
  by_order-Needs : (n t : ℕ) → Needs h laws (by_order h (compare n t) n t) (λ _. n ≡ t)
  by_order-Needs n t = record { held = λ vars a e. ground (arith, e) }

  -- The nonce of the caller is that of the transaction.
  check_nonce-Needs :
      Needs h laws
        (check_nonce h self false)
        (λ b. b.ledger.nonce self.ctx.caller ≡ h.tx_trait.nonce self.ctx.tx)
  unfolding check_nonce
  check_nonce-Needs =
      let caller = self.ctx.caller in
      let tx_nonce = h.tx_trait.nonce self.ctx.tx in
      read-Needs (h.db.get_nonce caller) (λ l. l.nonce caller) _ (λ n _. n ≡ tx_nonce)
        (laws.get_nonce-Reads caller) (λ n. by_order-Needs n tx_nonce)

  -- The fee cap of the transaction is at least the base fee.
  check_base_fee-Needs :
      (base_fee : ℕ)
      → Needs h laws
          (check_base_fee h self base_fee)
          (λ _. base_fee ≤ h.tx_trait.max_fee_per_gas self.ctx.tx)
  unfolding check_base_fee
  check_base_fee-Needs base_fee = record { held = λ vars a e. ground (arith, e) }

  covered-Needs :
      (balance need : ℕ)
      → Needs h laws
          (if ltb balance need then throw insufficient_funds else pure tt)
          (λ _. need ≤ balance)
  covered-Needs balance need = record { held = λ vars a e. ground (arith, e) }

  check_balance-Needs :
      (need : ℕ)
      → Needs h laws (check_balance h self need) (λ b. need ≤ b.ledger.balance self.ctx.caller)
  unfolding check_balance
  check_balance-Needs need =
      let caller = self.ctx.caller in
      read-Needs (h.db.get_balance caller) (λ l. l.balance caller) _ (λ v _. need ≤ v)
        (laws.get_balance-Reads caller) (λ v. covered-Needs v need)

  checked-Needs :
      (free : Bool) (need : ℕ)
      → free ≡ false
      → Needs h laws
          (if free then pure tt else check_balance h self need)
          (λ b. need ≤ b.ledger.balance self.ctx.caller)
  checked-Needs true need charged = cc
  checked-Needs false need charged = check_balance-Needs need

  buy_gas-Needs :
      self.ctx.no_gas_fee ≡ false
      → Needs h laws (buy_gas h self) (λ b. max_cost self ≤ b.ledger.balance self.ctx.caller)
  unfolding buy_gas
  buy_gas-Needs charged =
      let gas = h.tx_trait.gas self.ctx.tx in
      let fee_cap = h.tx_trait.max_fee_per_gas self.ctx.tx in
      let value = h.tx_trait.value self.ctx.tx in
      let extra = or_zero self.ctx.extra_fee in
      or_panic-Needs (h.uint.mul gas self.gas_price) _ λ mgval _.
        or_panic-Needs (h.uint.mul gas fee_cap) _ λ at_cap e₁.
          or_panic-Needs (h.uint.add at_cap value) _ λ with_value e₂.
            or_panic-Needs (h.uint.add with_value extra) _ λ need e₃.
              let total : need ≡ max_cost self = omega (
                arith,
                mul_value h.uint gas fee_cap e₁,
                add_value h.uint at_cap value e₂,
                add_value h.uint with_value extra e₃,
              ) in
              Needs-mono (λ b c. omega arith)
                (first-Needs _ (checked-Needs self.ctx.no_gas_fee need charged))

  pay_gas-Needs :
      (free : Bool) (extra mgval : ℕ)
      → free ≡ false
      → Needs h laws
          (if free then pure tt else pay_gas h self extra mgval)
          (λ b. extra + mgval ≤ b.ledger.balance self.ctx.caller)
  unfolding pay_gas
  pay_gas-Needs true extra mgval charged = cc
  pay_gas-Needs false extra mgval charged =
      let caller = self.ctx.caller in
      or_panic-Needs (h.uint.add extra mgval) _ λ total e. record {
        held = λ vars a ok_sub.
            let sub = h.db.sub_balance caller total vars.state_db in
            let covered =
              laws.sub_balance_covered caller total vars.state_db (map_err-eq-ok sub.0 a ok_sub) in
            omega (arith, add_value h.uint extra mgval e, covered);
      }

  prepaid-Needs :
      self.ctx.no_gas_fee ≡ false
      → Needs h laws (buy_gas h self) (λ b. prepaid self ≤ b.ledger.balance self.ctx.caller)
  unfolding buy_gas
  prepaid-Needs charged =
      let gas = h.tx_trait.gas self.ctx.tx in
      let free = self.ctx.no_gas_fee in
      let extra = or_zero self.ctx.extra_fee in
      or_panic-Needs (h.uint.mul gas self.gas_price) _ λ mgval e.
        or_panic-Needs (h.uint.mul gas (h.tx_trait.max_fee_per_gas self.ctx.tx)) _ λ at_cap _.
          or_panic-Needs (h.uint.add at_cap (h.tx_trait.value self.ctx.tx)) _ λ with_value _.
            or_panic-Needs (h.uint.add with_value extra) _ λ need _.
              Needs-mono (λ b c. omega (arith, mul_value h.uint gas self.gas_price e))
                (second-Needs (checked-Does h laws self free need) λ _.
                  second-Needs (add_gas-Does h laws self gas)
                    λ _. pay_gas-Needs free extra mgval charged)

  nonce-Needs :
      Needs h laws
        (execute h self)
        (λ b. b.ledger.nonce self.ctx.caller ≡ h.tx_trait.nonce self.ctx.tx)
  unfolding execute
  nonce-Needs = first-Needs _ check_nonce-Needs

  fee_cap-Needs :
      Needs h laws
        (execute h self)
        (λ _. block_base_fee self ≤ h.tx_trait.max_fee_per_gas self.ctx.tx)
  unfolding execute
  fee_cap-Needs =
      second-Needs (check_nonce-Does h laws self)
        λ _. first-Needs _ (check_base_fee-Needs (block_base_fee self))

  balance-Needs :
      self.ctx.no_gas_fee ≡ false
      → Needs h laws (execute h self) (λ b. max_cost self ≤ b.ledger.balance self.ctx.caller)
  unfolding execute
  balance-Needs charged = second-Needs (check_nonce-Does h laws self) λ _.
      second-Needs (check_base_fee-Does h laws self (block_base_fee self))
        λ _. first-Needs _ (buy_gas-Needs charged)

  pub paid-Needs :
      self.ctx.no_gas_fee ≡ false
      → Needs h laws (execute h self) (λ b. prepaid self ≤ b.ledger.balance self.ctx.caller)
  unfolding execute
  paid-Needs charged = second-Needs (check_nonce-Does h laws self) λ _.
      second-Needs (check_base_fee-Does h laws self (block_base_fee self))
        λ _. first-Needs _ (prepaid-Needs charged)

  -- A transaction that is executed for a fee had the nonce of its sender's account, a fee cap of
  -- at least the base fee, and a sender whose balance covered the gas at the fee cap, the value
  -- and the extra fee.
  pub execute_admits :
      self.ctx.no_gas_fee ≡ false
      → (vars : Vars h) {result : ExecuteResult} → (execute h self vars).0 ≡ ok result
      → let before = laws.view vars.state_db in
        (before.nonce self.ctx.caller ≡ h.tx_trait.nonce self.ctx.tx)
        × (block_base_fee self ≤ h.tx_trait.max_fee_per_gas self.ctx.tx)
        × (max_cost self ≤ before.balance self.ctx.caller)
  execute_admits charged vars {result} e = (
    nonce-Needs.held vars result e,
    fee_cap-Needs.held vars result e,
    (balance-Needs charged).held vars result e,
  )
