-- ===== src/TxExecutor/Checks.antt =====
-- What `execute` does before the interpreter runs, `check_nonce`, `check_base_fee` and `buy_gas`,
-- and the refund behind it, `refund_gas`.
use evm_executor_rs.Base.{
  ℕ, Bool, Option, none, some, ltb, if◌then◌else◌, add_u64, ok, pure, throw, or_panic, ◌>>=◌, ◌>>◌,
}
use Prim.Native.Nat.{compare, Ordering}
use evm_executor_rs.External.Traits.{Address}
use evm_executor_rs.External.Host.{Host}
use evm_executor_rs.Types.{insufficient_funds, insufficient_base_fee, nonce_too_low, nonce_too_high}
use evm_executor_rs.TxExecutor.Machine.{TxExecutor, Exec, or_zero, get_vars, on_db}

module _ (h : Host) where
  -- The `match nonce.cmp(&tx_nonce)` of `check_nonce`.
  abbrev pub by_order : Ordering → ℕ → ℕ → Exec h (Unit {0})
  by_order Ordering.eq nonce tx_nonce = pure tt
  by_order Ordering.gt nonce tx_nonce = throw (nonce_too_low nonce tx_nonce)
  by_order Ordering.lt nonce tx_nonce = throw (nonce_too_high nonce tx_nonce)

  unfoldable pub compare_nonce : ℕ → ℕ → Exec h (Unit {0})
  compare_nonce nonce tx_nonce = by_order (compare nonce tx_nonce) nonce tx_nonce

  abbrev pub try_get_nonce : Address → Exec h (Option ℕ)
  try_get_nonce caller vars =
      let r = h.db.try_get_nonce caller vars.state_db in (ok r.0, record vars { state_db = r.1 })

  abbrev pub compare_found : Option ℕ → ℕ → Exec h (Unit {0})
  compare_found none tx_nonce = pure tt
  compare_found (some nonce) tx_nonce = compare_nonce nonce tx_nonce

  module _ (self : TxExecutor h) where
    unfoldable pub check_nonce : Bool → Exec h (Unit {0})
    unfolding compare_nonce
    check_nonce try_get =
        let caller = self.ctx.caller in
        let tx_nonce = h.tx_trait.nonce self.ctx.tx in
        if try_get
        then (try_get_nonce caller >>= λ found. compare_found found tx_nonce)
        else (on_db h (h.db.get_nonce caller) >>= λ nonce. compare_nonce nonce tx_nonce)

    unfoldable pub check_base_fee : ℕ → Exec h (Unit {0})
    check_base_fee base_fee =
        let tx = self.ctx.tx in
        if ltb (h.tx_trait.max_fee_per_gas tx) base_fee
        then (do
          effective_gas_tip ← or_panic (h.tx_trait.effective_gas_tip tx none)
          throw (
              insufficient_base_fee (h.tx_trait.hash tx) (h.parse_ether base_fee 9)
                (h.parse_ether effective_gas_tip 9) (h.header_trait.number self.ctx.header)))
        else pure tt

    -- The test of the balance in `buy_gas`.
    unfoldable pub check_balance : ℕ → Exec h (Unit {0})
    check_balance balance_check = do
      balance ← on_db h (h.db.get_balance self.ctx.caller)
      if ltb balance balance_check then throw insufficient_funds else pure tt

    -- `self.gas += gas; self.initial_gas += gas`
    abbrev pub add_gas : ℕ → Exec h (Unit {0})
    add_gas gas vars = (
      ok tt,
      record vars { gas = add_u64 vars.gas gas; initial_gas = add_u64 vars.initial_gas gas },
    )

    -- The payment of `buy_gas`, `sub_balance(caller, &(extra_fee + mgval))`.
    unfoldable pub pay_gas : ℕ → ℕ → Exec h (Unit {0})
    pay_gas extra_fee mgval = do
      total ← or_panic (h.uint.add extra_fee mgval)
      on_db h (h.db.sub_balance self.ctx.caller total)

    unfoldable pub buy_gas : Exec h (Unit {0})
    unfolding check_balance pay_gas
    buy_gas = do
      let tx = self.ctx.tx
      let gas = h.tx_trait.gas tx
      let extra_fee = or_zero self.ctx.extra_fee
      mgval ← or_panic (h.uint.mul gas self.gas_price)
      max_cost ← or_panic (h.uint.mul gas (h.tx_trait.max_fee_per_gas tx))
      with_value ← or_panic (h.uint.add max_cost (h.tx_trait.value tx))
      balance_check ← or_panic (h.uint.add with_value extra_fee)
      if self.ctx.no_gas_fee then pure tt else check_balance balance_check
      add_gas gas
      if self.ctx.no_gas_fee then pure tt else pay_gas extra_fee mgval

    unfoldable pub refund_gas : Exec h (Unit {0})
    refund_gas = if self.ctx.no_gas_fee then pure tt else (do
      vars ← get_vars h
      remaining ← or_panic (h.uint.mul vars.gas self.gas_price)
      on_db h (h.db.add_balance self.ctx.caller remaining))
