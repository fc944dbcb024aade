-- ===== src/TxExecutor/Laws/Refusals.antt =====
-- A transaction that is refused leaves the books alone.
use evm_executor_rs.Base.{
  ℕ, ◌≡◌, Bool, true, false, Option, none, some, List, [], ◌∷◌, arith, if◌then◌else◌, Outcome, ok,
  err, panic, Action, pure, or_panic, after, ◌>>=◌, ◌==◌,
}
use evm_executor_rs.External.Traits.{Address, Hash, Bytes}
use evm_executor_rs.External.Evm.{Apply, modify, delete, Basic}
use evm_executor_rs.External.Host.{Host}
use evm_executor_rs.Types.{
  ExecuteError, nonce_too_low, nonce_too_high, insufficient_funds, insufficient_base_fee,
  not_supported, execute_payment_tx_fail, state_error, ExecuteResult,
}
use evm_executor_rs.StateProxy.NoErrors.{run-NoErrors}
use evm_executor_rs.TxExecutor.Machine.{TxExecutor, Vars, Exec, on_db, map_err, get_vars}
use evm_executor_rs.TxExecutor.Checks.{pay_gas, add_gas, refund_gas}
use evm_executor_rs.TxExecutor.Changes.{
  set_code, set_slots, apply_modify, apply_change, apply_all, apply_states,
}
use evm_executor_rs.TxExecutor.Execute.{
  charge, calculate_txfee, pay_miner, transact, result_of, exec_tx, settle,
}

-- The errors by which the executor itself refuses a transaction.
abbrev pub IsRefusal : {E : Type 0} → ExecuteError E → Type 0
IsRefusal (nonce_too_low n t) = Unit
IsRefusal (nonce_too_high n t) = Unit
IsRefusal insufficient_funds = Unit
IsRefusal (insufficient_base_fee a b c d) = Unit
IsRefusal not_supported = ⊥
IsRefusal (execute_payment_tx_fail a) = ⊥
IsRefusal (state_error e) = ⊥

-- `m` refuses nothing.
pub record Accepts {h : Host} {A : Type 0} (m : Exec h A) : Type 0 where
  pub never : (vars : Vars h) (x : ExecuteError h.db.Error) → (m vars).0 ≡ err x → IsRefusal x → ⊥

map_err-accepts :
    {E A : Type 0} (r : Outcome E A) (x : ExecuteError E) → map_err r ≡ err x → IsRefusal x → ⊥
map_err-accepts (ok a) x e r = absurd (ground (arith, e))
map_err-accepts panic x e r = absurd (ground (arith, e))
map_err-accepts (err y) (state_error z) e r = r
map_err-accepts (err y) (nonce_too_low n t) e r = absurd (ground (arith, e))
map_err-accepts (err y) (nonce_too_high n t) e r = absurd (ground (arith, e))
map_err-accepts (err y) insufficient_funds e r = absurd (ground (arith, e))
map_err-accepts (err y) (insufficient_base_fee a b c d) e r = absurd (ground (arith, e))
map_err-accepts (err y) not_supported e r = absurd (ground (arith, e))
map_err-accepts (err y) (execute_payment_tx_fail a) e r = absurd (ground (arith, e))

module _ {h : Host} {A : Type 0} where
  pub pure-Accepts : (a : A) → Accepts {h = h} (pure a)
  pure-Accepts a = record { never = λ vars x e. absurd (ground (arith, e)) }

  pub or_panic-Accepts : (o : Option A) → Accepts {h = h} (or_panic o)
  or_panic-Accepts none = record { never = λ vars x e. absurd (ground (arith, e)) }
  or_panic-Accepts (some a) = record { never = λ vars x e. absurd (ground (arith, e)) }

  pub on_db-Accepts : (m : Action h.db.State h.db.Error A) → Accepts (on_db h m)
  on_db-Accepts m = record { never = λ vars x e. map_err-accepts (m vars.state_db).0 x e }

  pub if-Accepts :
      {m k : Exec h A} (c : Bool) → Accepts m → Accepts k → Accepts (if c then m else k)
  if-Accepts true d e = d
  if-Accepts false d e = e

module _ {h : Host} {A B : Type 0} where
  after-Accepts :
      (k : A → Exec h B) (r : Outcome (ExecuteError h.db.Error) A) (t : Vars h)
      (x : ExecuteError h.db.Error)
      → (r ≡ err x → IsRefusal x → ⊥)
      → ((a : A) → Accepts (k a))
      → (after k r t).0 ≡ err x
      → IsRefusal x
      → ⊥
  after-Accepts k (ok a) t x n l e = (l a).never t x e
  after-Accepts k (err y) t x n l e = n (ground (arith, e))
  after-Accepts k panic t x n l e = absurd (ground (arith, e))

  pub bind-Accepts :
      {m : Exec h A} {k : A → Exec h B} → Accepts m → ((a : A) → Accepts (k a)) → Accepts (m >>= k)
  bind-Accepts {m} {k} n l = record {
    never = λ vars x e. after-Accepts k (m vars).0 (m vars).1 x (n.never vars x) l e;
  }

module _ {h : Host} where
  -- The database, the interpreter and the payments refuse nothing.
  pub add_gas-Accepts : (self : TxExecutor h) (gas : ℕ) → Accepts (add_gas h self gas)
  add_gas-Accepts self gas = record { never = λ vars x e. absurd (ground (arith, e)) }

  pub pay_gas-Accepts :
      (self : TxExecutor h) (extra_fee mgval : ℕ) → Accepts (pay_gas h self extra_fee mgval)
  unfolding pay_gas
  pay_gas-Accepts self extra_fee mgval =
      bind-Accepts (or_panic-Accepts (h.uint.add extra_fee mgval))
        λ total. on_db-Accepts (h.db.sub_balance self.ctx.caller total)

  pub exec_tx-Accepts : (self : TxExecutor h) → Accepts (exec_tx h self)
  unfolding exec_tx
  exec_tx-Accepts self =
      bind-Accepts
        (record {
          never = λ vars x e r.
              run-NoErrors h self.ctx (transact h self (h.tx_trait.to self.ctx.tx)) vars.state_db x
                e;
        })
        λ run. pure-Accepts (result_of h self run)

  set_code-Accepts : (address : Address) (code : Option Bytes) → Accepts (set_code h address code)
  set_code-Accepts address none = pure-Accepts tt
  set_code-Accepts address (some code) = on_db-Accepts (h.db.set_code address code)

  set_slots-Accepts :
      (address : Address) (storage : List (Hash × Hash)) → Accepts (set_slots h address storage)
  unfolding set_slots
  set_slots-Accepts address [] = pure-Accepts tt
  set_slots-Accepts address ((index, value) ∷ storage) =
      bind-Accepts (on_db-Accepts (h.db.set_state address index value))
        λ _. set_slots-Accepts address storage

  apply_modify-Accepts :
      (address : Address) (basic : Basic) (code : Option Bytes) (storage : List (Hash × Hash))
      (reset : Bool)
      → Accepts (apply_modify h address basic code storage reset)
  unfolding apply_modify
  apply_modify-Accepts address basic code storage reset =
      bind-Accepts (if-Accepts reset (on_db-Accepts (h.db.suicide address)) (pure-Accepts tt)) λ _.
        bind-Accepts (on_db-Accepts (h.db.set_balance address basic.balance)) λ _.
          bind-Accepts (on_db-Accepts (h.db.set_nonce address basic.nonce))
            λ _. bind-Accepts (set_code-Accepts address code) λ _. set_slots-Accepts address storage

  apply_change-Accepts :
      (self : TxExecutor h) (success : Bool) (c : Apply) → Accepts (apply_change h self success c)
  unfolding apply_change
  apply_change-Accepts self true (modify address basic code storage reset) =
      apply_modify-Accepts address basic code storage reset
  apply_change-Accepts self false (modify address basic code storage reset) =
      if-Accepts (self.ctx.caller == address) (on_db-Accepts (h.db.set_nonce address basic.nonce))
        (pure-Accepts tt)
  apply_change-Accepts self true (delete address) = on_db-Accepts (h.db.suicide address)
  apply_change-Accepts self false (delete address) = pure-Accepts tt

  apply_all-Accepts :
      (self : TxExecutor h) (success : Bool) (cs : List Apply)
      → Accepts (apply_all h self success cs)
  unfolding apply_all
  apply_all-Accepts self success [] = pure-Accepts tt
  apply_all-Accepts self success (c ∷ cs) =
      bind-Accepts (apply_change-Accepts self success c) λ _. apply_all-Accepts self success cs

  pay_miner-Accepts :
      (self : TxExecutor h) (miner : Option Address) (fee : ℕ)
      → Accepts (pay_miner h self miner fee)
  pay_miner-Accepts self none fee = pure-Accepts tt
  pay_miner-Accepts self (some miner) fee = on_db-Accepts (h.db.add_balance miner fee)

  charge-Accepts : (self : TxExecutor h) (used_gas : ℕ) → Accepts (charge h self used_gas)
  unfolding charge
  charge-Accepts self used_gas = record { never = λ vars x e. absurd (ground (arith, e)) }

  get_vars-Accepts : Accepts (get_vars h)
  get_vars-Accepts = record { never = λ vars x e. absurd (ground (arith, e)) }

  refund_gas-Accepts : (self : TxExecutor h) → Accepts (refund_gas h self)
  unfolding refund_gas
  refund_gas-Accepts self = if-Accepts self.ctx.no_gas_fee (pure-Accepts tt) (
      bind-Accepts (get_vars-Accepts) λ vars.
        bind-Accepts (or_panic-Accepts (h.uint.mul vars.gas self.gas_price))
          λ remaining. on_db-Accepts (h.db.add_balance self.ctx.caller remaining))

  pub settle-Accepts :
      (self : TxExecutor h) (base_fee : ℕ) (result : ExecuteResult)
      → Accepts (settle h self base_fee result)
  unfolding settle apply_states
  settle-Accepts self base_fee result = bind-Accepts (charge-Accepts self result.used_gas) λ _.
      bind-Accepts (or_panic-Accepts (calculate_txfee h self result.used_gas base_fee)) λ fee.
        bind-Accepts (apply_all-Accepts self result.success result.states) λ _.
          bind-Accepts (pay_miner-Accepts self self.ctx.miner fee)
            λ _. bind-Accepts (refund_gas-Accepts self) λ _. pure-Accepts result
