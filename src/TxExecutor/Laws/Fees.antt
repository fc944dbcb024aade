-- ===== src/TxExecutor/Laws/Fees.antt =====
-- What buying gas, charging it, paying the miner and refunding do to the books.
use evm_executor_rs.Base.{
  ℕ, ◌+◌, ◌-◌, ◌*◌, ◌≡◌, refl, ap, Bool, true, false, Option, none, some, arith, min, ltb, ◌&&◌,
  if◌then◌else◌, add_u64, sub_u64, pure, throw, or_panic, ◌>>=◌,
}
use evm_executor_rs.External.Traits.{Address}
use evm_executor_rs.External.Uint.{Uint}
use evm_executor_rs.External.Host.{Host}
use evm_executor_rs.External.StateDb.{StateDbLaws, Ledger, credit, debit}
use evm_executor_rs.Types.{ExecuteError, insufficient_funds}
use evm_executor_rs.TxExecutor.Machine.{TxExecutor, Exec, on_db, or_zero, get_vars}
use evm_executor_rs.TxExecutor.Checks.{check_balance, pay_gas, buy_gas, refund_gas, add_gas}
use evm_executor_rs.TxExecutor.Execute.{charge, calculate_txfee, pay_miner}
use evm_executor_rs.TxExecutor.Laws.Effects.{
  Books, on_ledger, Does, pure-Does, bind-Does, or_panic-Does, on_db-Writes, on_db-Reads,
  throw-Does, Does-eq,
}

module _ (u : Uint) where
  pub add_value : (a b : ℕ) {c : ℕ} → u.add a b ≡ some c → c ≡ a + b
  add_value a b e = ground (arith, u.add_lem a b)

  pub mul_value : (a b : ℕ) {c : ℕ} → u.mul a b ≡ some c → c ≡ a * b
  mul_value a b e = ground (arith, u.mul_lem a b)

module _ {h : Host} (self : TxExecutor h) where
  -- The fee of the miner: the tip that the fee cap leaves room for, and the extra fee.
  abbrev pub tip_per_gas : ℕ → ℕ
  tip_per_gas base_fee =
      min (h.tx_trait.max_priority_fee_per_gas self.ctx.tx)
        (h.tx_trait.max_fee_per_gas self.ctx.tx - base_fee)

  abbrev pub txfee : ℕ → ℕ → ℕ
  txfee base_fee used_gas = used_gas * tip_per_gas base_fee + or_zero self.ctx.extra_fee

  -- A purchase of the transaction's gas at a cost, with the extra fee.
  abbrev pub bought_for : ℕ → Books → Books
  bought_for cost b = record {
    ledger =
        if self.ctx.no_gas_fee
        then b.ledger
        else debit self.ctx.caller (or_zero self.ctx.extra_fee + cost) b.ledger;
    gas = add_u64 b.gas (h.tx_trait.gas self.ctx.tx);
  }

  abbrev pub bought : Books → Books
  bought = bought_for (h.tx_trait.gas self.ctx.tx * self.gas_price)

  abbrev pub charged : ℕ → Books → Books
  charged used_gas b = record b {
    gas = if ltb b.gas used_gas && self.ctx.gas_overcommit then 0 else sub_u64 b.gas used_gas;
  }

  abbrev pub to_miner : Option Address → ℕ → Ledger → Ledger
  to_miner none fee l = l
  to_miner (some miner) fee l = credit miner fee l

  abbrev pub refunded : Books → Books
  refunded b = record b {
    ledger =
        if self.ctx.no_gas_fee
        then b.ledger
        else credit self.ctx.caller (b.gas * self.gas_price) b.ledger;
  }

  -- The fee is never computed below the base fee.
  pub calculate_txfee_value :
      (base_fee used_gas : ℕ) {fee : ℕ}
      → calculate_txfee h self used_gas base_fee ≡ some fee
      → fee ≡ txfee base_fee used_gas
  unfolding calculate_txfee
  calculate_txfee_value base_fee used_gas e =
      let cap = h.tx_trait.max_fee_per_gas self.ctx.tx in
      let tip = tip_per_gas base_fee in
      ground (
        arith,
        h.uint.sub_lem cap base_fee,
        h.uint.mul_lem used_gas tip,
        h.uint.add_lem (used_gas * tip) (or_zero self.ctx.extra_fee),
      )

module _ (h : Host) (laws : StateDbLaws h.db) (self : TxExecutor h) where
  test-Does :
      (c : Bool) (x : ExecuteError h.db.Error)
      → Does h laws (if c then throw x else pure tt) (λ _ b. b)
  test-Does true x = throw-Does x (λ _ b. b)
  test-Does false x = pure-Does tt

  pub check_balance-Does : (need : ℕ) → Does h laws (check_balance h self need) (λ _ b. b)
  unfolding check_balance
  check_balance-Does need =
      bind-Does
        (on_db-Reads (h.db.get_balance self.ctx.caller) (λ l. l.balance self.ctx.caller)
          (laws.get_balance-Reads self.ctx.caller))
        (λ balance. test-Does (ltb balance need) insufficient_funds)

  pay_gas-Does :
      (extra mgval : ℕ)
      → Does h laws
          (pay_gas h self extra mgval)
          (λ _. on_ledger (debit self.ctx.caller (extra + mgval)))
  unfolding pay_gas
  pay_gas-Does extra mgval = or_panic-Does (h.uint.add extra mgval) _ λ total e.
      rw (← add_value h.uint extra mgval e) (
        on_db-Writes (h.db.sub_balance self.ctx.caller total) (debit self.ctx.caller total)
          (laws.sub_balance-Writes self.ctx.caller total))

  pub add_gas-Does :
      (gas : ℕ) → Does h laws (add_gas h self gas) (λ _ b. record b { gas = add_u64 b.gas gas })
  add_gas-Does gas = record { effect = λ vars a e. refl }

  -- The two steps of `buy_gas` that are left out without a gas fee.
  pub checked-Does :
      (free : Bool) (need : ℕ)
      → Does h laws (if free then pure tt else check_balance h self need) (λ _ b. b)
  checked-Does true need = pure-Does tt
  checked-Does false need = check_balance-Does need

  pub paid-Does :
      (free : Bool) (extra mgval : ℕ)
      → Does h laws
          (if free then pure tt else pay_gas h self extra mgval)
          (λ _. on_ledger (λ l. if free then l else debit self.ctx.caller (extra + mgval) l))
  paid-Does true extra mgval = pure-Does tt
  paid-Does false extra mgval = pay_gas-Does extra mgval

  -- A purchase that succeeds adds the gas, and takes its price and the extra fee from the caller.
  pub buy_gas-Does : Does h laws (buy_gas h self) (λ _. bought self)
  unfolding buy_gas
  buy_gas-Does =
      let gas = h.tx_trait.gas self.ctx.tx in
      let free = self.ctx.no_gas_fee in
      let extra = or_zero self.ctx.extra_fee in
      or_panic-Does (h.uint.mul gas self.gas_price) _ λ mgval e.
        or_panic-Does (h.uint.mul gas (h.tx_trait.max_fee_per_gas self.ctx.tx)) _ λ max_cost _.
          or_panic-Does (h.uint.add max_cost (h.tx_trait.value self.ctx.tx)) _ λ with_value _.
            or_panic-Does (h.uint.add with_value extra) _ λ need _.
              Does-eq
                (ap {B = Unit {0} → Books → Books} (λ cost _. bought_for self cost)
                  (mul_value h.uint gas self.gas_price e))
                (bind-Does (checked-Does free need)
                  λ _. bind-Does (add_gas-Does gas) λ _. paid-Does free extra mgval)

  pub charge-Does :
      (used_gas : ℕ) → Does h laws (charge h self used_gas) (λ _. charged self used_gas)
  unfolding charge
  charge-Does used_gas = record { effect = λ vars a e. refl }

  pub pay_miner-Does :
      (miner : Option Address) (fee : ℕ)
      → Does h laws (pay_miner h self miner fee) (λ _. on_ledger (to_miner self miner fee))
  pay_miner-Does none fee = pure-Does tt
  pay_miner-Does (some m) fee =
      on_db-Writes (h.db.add_balance m fee) (credit m fee) (laws.add_balance-Writes m fee)

  refund : ℕ → Exec h (Unit {0})
  refund gas = or_panic (h.uint.mul gas self.gas_price) >>= λ remaining.
      on_db h (h.db.add_balance self.ctx.caller remaining)

  refund-Does :
      (gas : ℕ)
      → Does h laws (refund gas) (λ _. on_ledger (credit self.ctx.caller (gas * self.gas_price)))
  unfolding refund
  refund-Does gas = or_panic-Does (h.uint.mul gas self.gas_price) _ λ remaining e.
      rw (← mul_value h.uint gas self.gas_price e) (
        on_db-Writes (h.db.add_balance self.ctx.caller remaining) (credit self.ctx.caller remaining)
          (laws.add_balance-Writes self.ctx.caller remaining))

  refund_at :
      (free : Bool)
      → Does h laws (if free then pure tt else (get_vars h >>= λ vars. refund vars.gas)) (λ _ b.
        record b {
          ledger =
              if free then b.ledger else credit self.ctx.caller (b.gas * self.gas_price) b.ledger;
        })
  refund_at true = pure-Does tt
  refund_at false = record { effect = λ vars a e. (refund-Does vars.gas).effect vars a e }

  -- The refund pays the caller for the gas that is left, at the gas price.
  pub refund_gas-Does : Does h laws (refund_gas h self) (λ _. refunded self)
  unfolding refund_gas refund
  refund_gas-Does = refund_at self.ctx.no_gas_fee
