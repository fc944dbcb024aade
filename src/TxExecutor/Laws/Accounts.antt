-- ===== src/TxExecutor/Laws/Accounts.antt =====
-- What an executed transaction does to the ledger and to each account's balance.
use evm_executor_rs.Base.{
  ℕ, ◌+◌, ◌-◌, ◌*◌, ◌≤◌, ◌<◌, ◌≡◌, refl, ap, ◌∙◌, Bool, true, false, Option, none, some, List, [],
  ◌∷◌, arith, ltb, ◌&&◌, ◌==◌, if◌then◌else◌, sub_u64, add_u64, ok, u64_mod,
}
use evm_executor_rs.External.Traits.{Address}
use evm_executor_rs.External.Evm.{Apply, modify, delete, EvmLaws}
use evm_executor_rs.External.Host.{Host}
use evm_executor_rs.External.StateDb.{StateDbLaws, Ledger, update, put_nonce, credit, debit}
use evm_executor_rs.Types.{ExecuteResult}
use evm_executor_rs.TxExecutor.Machine.{TxExecutor, Vars, or_zero}
use evm_executor_rs.TxExecutor.Execute.{execute}
use evm_executor_rs.TxExecutor.Laws.Effects.{Books, books}
use evm_executor_rs.TxExecutor.Laws.Changes.{all_changed}
use evm_executor_rs.TxExecutor.Laws.Fees.{txfee, bought, to_miner}
use evm_executor_rs.TxExecutor.Laws.Whole.{block_base_fee, settled, execute-Does}
use evm_executor_rs.TxExecutor.Laws.Gas.{execute_used_gas}
use evm_executor_rs.TxExecutor.Laws.Admission.{prepaid, paid-Needs}

module _ {h : Host} (self : TxExecutor h) where
  -- The ledger after a transaction with a fee: the caller pays for all the gas and the extra fee,
  -- the changes of the run are made, the miner gets the fee, the caller is refunded.
  abbrev pub executed : ExecuteResult → Ledger → Ledger
  executed result before =
      let gas = h.tx_trait.gas self.ctx.tx in
      let caller = self.ctx.caller in
      let prepaid = debit caller (or_zero self.ctx.extra_fee + gas * self.gas_price) before in
      let run = all_changed caller result.success result.states prepaid in
      let fee = txfee self (block_base_fee self) result.used_gas in
      credit caller ((gas - result.used_gas) * self.gas_price)
        (to_miner self self.ctx.miner fee run)

module _ (h : Host) (laws : StateDbLaws h.db) (evm_laws : EvmLaws h.evm) (self : TxExecutor h) where
  settled-executed :
      (result : ExecuteResult) (b : Books)
      → b.gas ≡ 0
      → self.ctx.no_gas_fee ≡ false
      → h.tx_trait.gas self.ctx.tx < u64_mod
      → result.used_gas ≤ h.tx_trait.gas self.ctx.tx
      → (settled self result (bought self b)).ledger ≡ executed self result b.ledger
  settled-executed result b start charged fits within =
      let gas = h.tx_trait.gas self.ctx.tx in
      let left =
        (if ltb (add_u64 b.gas gas) result.used_gas && self.ctx.gas_overcommit
          then 0
          else sub_u64 (add_u64 b.gas gas) result.used_gas) in
      let e : left ≡ gas - result.used_gas = ground arith in rw (charged, e)

  -- A transaction of less than 2^64 gas that a new executor executes for a fee, over an interpreter
  -- that keeps to its gas limit, leaves the ledger in which the caller has paid all the gas and the
  -- extra fee, the changes of the run are made, the miner has got the fee, and the caller is
  -- refunded the gas that was not used.
  pub execute_ledger :
      self.ctx.no_gas_fee ≡ false
      → h.tx_trait.gas self.ctx.tx < u64_mod
      → (vars : Vars h) {result : ExecuteResult} → vars.gas ≡ 0
      → (execute h self vars).0 ≡ ok result
      → laws.view (execute h self vars).1.state_db ≡ executed self result (laws.view vars.state_db)
  execute_ledger charged fits vars {result} start e =
      let within = execute_used_gas h evm_laws self charged vars e in
      ap (λ b. b.ledger) ((execute-Does h laws self).effect vars result e)
      ∙ settled-executed result (books h laws vars) start charged fits within

-- After a run that failed no balance is changed, nor any nonce but the caller's.
all_changed_failed :
    (caller : Address) (cs : List Apply) (l : Ledger)
    → (all_changed caller false cs l).balance ≡ l.balance
all_changed_failed caller [] l = refl
all_changed_failed caller (delete a ∷ cs) l = all_changed_failed caller cs l
all_changed_failed caller (modify a basic code slots reset ∷ cs) l =
    all_changed_failed caller cs _ ∙ changed_failed (caller == a)
  where
    changed_failed :
        (mine : Bool) → (if mine then put_nonce a basic.nonce l else l).balance ≡ l.balance
    changed_failed true = refl
    changed_failed false = refl

mul_split : (gas used price : ℕ) → used ≤ gas → gas * price ≡ used * price + (gas - used) * price
mul_split gas used price h = grind arith

abbrev refunded_balances : Address → ℕ → (Address → ℕ) → Address → ℕ
refunded_balances caller v f = update caller (f caller + v) f

abbrev mined_balances : Option Address → ℕ → (Address → ℕ) → Address → ℕ
mined_balances none fee f = f
mined_balances (some m) fee f = update m (f m + fee) f

-- An account's part in an amount.
abbrev pub share : Address → Option Address → ℕ → ℕ
share a none v = 0
share a (some b) v = if a == b then v else 0

module _ {h : Host} (self : TxExecutor h) where
  -- What a failed run costs its caller, and brings its miner.
  abbrev pub cost : ExecuteResult → ℕ
  cost result = or_zero self.ctx.extra_fee + result.used_gas * self.gas_price

module _ (h : Host) (laws : StateDbLaws h.db) (evm_laws : EvmLaws h.evm) (self : TxExecutor h) where
  failed_balances :
      (result : ExecuteResult) (before : Ledger) (miner : Option Address) (a : Address) (fee : ℕ)
      → prepaid self ≤ before.balance self.ctx.caller
      → result.used_gas ≤ h.tx_trait.gas self.ctx.tx
      → refunded_balances self.ctx.caller
            ((h.tx_trait.gas self.ctx.tx - result.used_gas) * self.gas_price)
            (mined_balances miner fee (
              update self.ctx.caller
                (before.balance self.ctx.caller - prepaid self)
                before.balance))
            a
          + share a (some self.ctx.caller) (cost self result)
        ≡ before.balance a + share a miner fee
  failed_balances result before none a fee covered within =
      ground (arith, mul_split (h.tx_trait.gas self.ctx.tx) result.used_gas self.gas_price)
  failed_balances result before (some m) a fee covered within =
      ground (arith, mul_split (h.tx_trait.gas self.ctx.tx) result.used_gas self.gas_price)

  executed_balances :
      (miner : Option Address) (v fee : ℕ) (l : Ledger)
      → (credit self.ctx.caller v (to_miner self miner fee l)).balance
        ≡ refunded_balances self.ctx.caller v (mined_balances miner fee l.balance)
  executed_balances none v fee l = refl
  executed_balances (some m) v fee l = refl

  run_balances :
      (result : ExecuteResult) (l : Ledger)
      → result.success ≡ false
      → (all_changed self.ctx.caller result.success result.states l).balance ≡ l.balance
  run_balances result l failed = rw failed (all_changed_failed self.ctx.caller result.states l)

  -- A transaction of less than 2^64 gas that a new executor executes for a fee, over an interpreter
  -- that keeps to its gas limit, and whose run failed, costs its caller the extra fee and the used
  -- gas at the gas price, brings the miner the tip for the used gas and the extra fee, and changes
  -- no other balance.
  pub execute_failed_run :
      self.ctx.no_gas_fee ≡ false
      → h.tx_trait.gas self.ctx.tx < u64_mod
      → (vars : Vars h) {result : ExecuteResult} → vars.gas ≡ 0
      → (execute h self vars).0 ≡ ok result
      → result.success ≡ false
      → (a : Address)
      → let fee = txfee self (block_base_fee self) result.used_gas in
        (laws.view (execute h self vars).1.state_db).balance a
          + share a (some self.ctx.caller) (cost self result)
        ≡ (laws.view vars.state_db).balance a + share a self.ctx.miner fee
  execute_failed_run charged fits vars {result} start e failed a =
      let within = execute_used_gas h evm_laws self charged vars e in
      let before = laws.view vars.state_db in
      let fee = txfee self (block_base_fee self) result.used_gas in
      let back = (h.tx_trait.gas self.ctx.tx - result.used_gas) * self.gas_price in
      let paid = debit self.ctx.caller (prepaid self) before in
      let run = all_changed self.ctx.caller result.success result.states paid in
      ap (λ (l : Ledger). l.balance a + share a (some self.ctx.caller) (cost self result))
        (execute_ledger h laws evm_laws self charged fits vars start e)
      ∙ ap (λ (f : Address → ℕ). f a + share a (some self.ctx.caller) (cost self result))
          (executed_balances self.ctx.miner back fee run
            ∙ ap
                (λ (f : Address → ℕ).
                  refunded_balances self.ctx.caller back (mined_balances self.ctx.miner fee f))
                (run_balances result paid failed))
      ∙ failed_balances result before self.ctx.miner a fee
          ((paid-Needs h laws self charged).held vars result e) within
