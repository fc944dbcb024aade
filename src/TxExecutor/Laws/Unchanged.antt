-- ===== src/TxExecutor/Laws/Unchanged.antt =====
-- A transaction that the executor refuses leaves the books alone: it is refused before it pays.
use evm_executor_rs.Base.{
  ℕ, ◌≡◌, refl, ap, ◌∙◌, Bool, true, false, Option, none, some, arith, ltb, if◌then◌else◌, Outcome,
  ok, err, panic, throw, or_panic, after, ◌>>=◌,
}
use Prim.Native.Nat.{compare, Ordering}
use evm_executor_rs.External.Host.{Host}
use evm_executor_rs.External.StateDb.{StateDbLaws}
use evm_executor_rs.Types.{
  ExecuteError, nonce_too_low, nonce_too_high, insufficient_funds, insufficient_base_fee,
}
use evm_executor_rs.TxExecutor.Machine.{TxExecutor, Vars, Exec, or_zero}
use evm_executor_rs.TxExecutor.Checks.{
  compare_nonce, by_order, check_nonce, check_base_fee, check_balance, buy_gas,
}
use evm_executor_rs.TxExecutor.Execute.{execute}
use evm_executor_rs.TxExecutor.Laws.Effects.{Does, on_db-Reads}
use evm_executor_rs.TxExecutor.Laws.Whole.{check_nonce-Does, check_base_fee-Does, block_base_fee}
use evm_executor_rs.TxExecutor.Laws.Refusals.{
  IsRefusal, Accepts, pure-Accepts, bind-Accepts, on_db-Accepts, if-Accepts, add_gas-Accepts,
  pay_gas-Accepts, exec_tx-Accepts, settle-Accepts,
}

module _ (h : Host) (laws : StateDbLaws h.db) where
  -- When `m` refuses, it has not changed the ledger.
  pub record Clean {A : Type 0} (m : Exec h A) : Type 0 where
    pub unchanged :
        (vars : Vars h) (x : ExecuteError h.db.Error)
        → (m vars).0 ≡ err x
        → IsRefusal x
        → laws.view (m vars).1.state_db ≡ laws.view vars.state_db

module _ {h : Host} {laws : StateDbLaws h.db} {A : Type 0} where
  Accepts-Clean : {m : Exec h A} → Accepts m → Clean h laws m
  Accepts-Clean n = record { unchanged = λ vars x e r. absurd (n.never vars x e r) }

  throw-Clean : (x : ExecuteError h.db.Error) → Clean h laws {A = A} (throw x)
  throw-Clean x = record { unchanged = λ vars y e r. refl }

  if-Clean :
      {m k : Exec h A} (c : Bool)
      → Clean h laws m
      → Clean h laws k
      → Clean h laws (if c then m else k)
  if-Clean true d e = d
  if-Clean false d e = e

module _ {h : Host} (laws : StateDbLaws h.db) {A B : Type 0} where
  after-Clean :
      (k : A → Exec h B) (r : Outcome (ExecuteError h.db.Error) A) (s t : Vars h)
      (x : ExecuteError h.db.Error)
      → (r ≡ err x → IsRefusal x → laws.view t.state_db ≡ laws.view s.state_db)
      → ((a : A) → r ≡ ok a → laws.view t.state_db ≡ laws.view s.state_db)
      → ((a : A) → Clean h laws (k a))
      → (after k r t).0 ≡ err x
      → IsRefusal x
      → laws.view (after k r t).1.state_db ≡ laws.view s.state_db
  after-Clean k (ok a) s t x c d l e r = (l a).unchanged t x e r ∙ d a refl
  after-Clean k (err y) s t x c d l e r = c (ground (arith, e)) r
  after-Clean k panic s t x c d l e r = absurd (ground (arith, e))

  after-last :
      (k : A → Exec h B) (r : Outcome (ExecuteError h.db.Error) A) (s t : Vars h)
      (x : ExecuteError h.db.Error)
      → (r ≡ err x → IsRefusal x → laws.view t.state_db ≡ laws.view s.state_db)
      → ((a : A) → Accepts (k a))
      → (after k r t).0 ≡ err x
      → IsRefusal x
      → laws.view (after k r t).1.state_db ≡ laws.view s.state_db
  after-last k (ok a) s t x c l e r = absurd ((l a).never t x e r)
  after-last k (err y) s t x c l e r = c (ground (arith, e)) r
  after-last k panic s t x c l e r = absurd (ground (arith, e))

module _ {h : Host} {laws : StateDbLaws h.db} {A B : Type 0} where
  -- Behind an action that leaves the books alone.
  bind-Clean :
      {m : Exec h A} {k : A → Exec h B}
      → Clean h laws m
      → Does h laws m (λ _ b. b)
      → ((a : A) → Clean h laws (k a))
      → Clean h laws (m >>= k)
  bind-Clean {m} {k} c d l = record {
    unchanged = λ vars x e.
        after-Clean laws k (m vars).0 vars (m vars).1 x (c.unchanged vars x)
          (λ a ea. ap (λ b. b.ledger) (d.effect vars a ea)) l e;
  }

  -- Before actions that refuse nothing.
  last-Clean :
      {m : Exec h A} {k : A → Exec h B}
      → Clean h laws m
      → ((a : A) → Accepts (k a))
      → Clean h laws (m >>= k)
  last-Clean {m} {k} c l = record {
    unchanged = λ vars x e. after-last laws k (m vars).0 vars (m vars).1 x (c.unchanged vars x) l e;
  }

  or_panic-Clean :
      (o : Option A) (k : A → Exec h B)
      → ((a : A) → Clean h laws (k a))
      → Clean h laws (or_panic o >>= k)
  or_panic-Clean none k l = record { unchanged = λ vars x e. absurd (ground (arith, e)) }
  or_panic-Clean (some a) k l = l a

module _ (h : Host) (laws : StateDbLaws h.db) (self : TxExecutor h) where
  check_nonce-Clean : Clean h laws (check_nonce h self false)
  unfolding check_nonce compare_nonce
  check_nonce-Clean =
      bind-Clean (Accepts-Clean (on_db-Accepts (h.db.get_nonce self.ctx.caller)))
        (on_db-Reads (h.db.get_nonce self.ctx.caller) (λ l. l.nonce self.ctx.caller)
          (laws.get_nonce-Reads self.ctx.caller))
        (λ nonce.
          by_order-Clean (compare nonce (h.tx_trait.nonce self.ctx.tx)) nonce
            (h.tx_trait.nonce self.ctx.tx))
    where
      by_order-Clean : (o : Ordering) (n t : ℕ) → Clean h laws (by_order h o n t)
      by_order-Clean Ordering.eq n t = Accepts-Clean (pure-Accepts tt)
      by_order-Clean Ordering.gt n t = throw-Clean (nonce_too_low n t)
      by_order-Clean Ordering.lt n t = throw-Clean (nonce_too_high n t)

  check_base_fee-Clean : (base_fee : ℕ) → Clean h laws (check_base_fee h self base_fee)
  unfolding check_base_fee
  check_base_fee-Clean base_fee =
      let tx = self.ctx.tx in
      if-Clean (ltb (h.tx_trait.max_fee_per_gas tx) base_fee)
        (or_panic-Clean (h.tx_trait.effective_gas_tip tx none) _ λ tip. throw-Clean (
          insufficient_base_fee (h.tx_trait.hash tx) (h.parse_ether base_fee 9)
            (h.parse_ether tip 9) (h.header_trait.number self.ctx.header)))
        (Accepts-Clean (pure-Accepts tt))

  check_balance-Clean : (need : ℕ) → Clean h laws (check_balance h self need)
  unfolding check_balance
  check_balance-Clean need =
      bind-Clean (Accepts-Clean (on_db-Accepts (h.db.get_balance self.ctx.caller)))
        (on_db-Reads (h.db.get_balance self.ctx.caller) (λ l. l.balance self.ctx.caller)
          (laws.get_balance-Reads self.ctx.caller))
        (λ balance.
          if-Clean (ltb balance need) (throw-Clean insufficient_funds)
            (Accepts-Clean (pure-Accepts tt)))

  buy_gas-Clean : Clean h laws (buy_gas h self)
  unfolding buy_gas
  buy_gas-Clean =
      let gas = h.tx_trait.gas self.ctx.tx in
      let free = self.ctx.no_gas_fee in
      let extra = or_zero self.ctx.extra_fee in
      or_panic-Clean (h.uint.mul gas self.gas_price) _ λ mgval.
        or_panic-Clean (h.uint.mul gas (h.tx_trait.max_fee_per_gas self.ctx.tx)) _ λ max_cost.
          or_panic-Clean (h.uint.add max_cost (h.tx_trait.value self.ctx.tx)) _ λ with_value.
            or_panic-Clean (h.uint.add with_value extra) _ λ need.
              last-Clean
                (if-Clean free (Accepts-Clean (pure-Accepts tt)) (check_balance-Clean need))
                λ _.
                  bind-Accepts (add_gas-Accepts self gas)
                    λ _. if-Accepts free (pure-Accepts tt) (pay_gas-Accepts self extra mgval)

  execute-Clean : Clean h laws (execute h self)
  unfolding execute
  execute-Clean = bind-Clean check_nonce-Clean (check_nonce-Does h laws self) λ _.
      bind-Clean (check_base_fee-Clean (block_base_fee self))
        (check_base_fee-Does h laws self (block_base_fee self))
        λ _. last-Clean buy_gas-Clean λ _.
          bind-Accepts (exec_tx-Accepts self)
            λ result. settle-Accepts self (block_base_fee self) result

  -- When `execute` returns one of the executor's own errors, on the nonce, the base fee or the
  -- funds, the ledger is the one before.
  pub execute_refused :
      (vars : Vars h) (x : ExecuteError h.db.Error)
      → (execute h self vars).0 ≡ err x
      → IsRefusal x
      → laws.view (execute h self vars).1.state_db ≡ laws.view vars.state_db
  execute_refused = execute-Clean.unchanged
