-- ===== src/Engines/Ethereum/Blocks.antt =====
-- The blocks that the Ethereum engine finalizes, and its withdrawals.
use evm_executor_rs.Base.{
  Bool, true, false, ==_iff, ℕ, ◌+◌, ◌*◌, ◌≤◌, ◌≡◌, refl, ap, sym, ◌∙◌, Option, none, some, List,
  [], ◌∷◌, arith, Outcome, ok, err, panic, Action, after, or_panic, ◌==◌, if◌then◌else◌,
  outcome_cases, inl, inr, ◌>>=◌,
}
use evm_executor_rs.External.Traits.{Address, Hash}
use evm_executor_rs.External.StateDb.{StateDbLaws, Ledger, credit}
use evm_executor_rs.TxExecutor.Laws.Fees.{mul_value}
use evm_executor_rs.BlockBuilder.Builder.{BlockBuilder}
use evm_executor_rs.BlockBuilder.Finish.{flush_state, finalize_header, finalize}
use evm_executor_rs.BlockBuilder.Laws.Gas.{total_gas, IsConsistent}
use evm_executor_rs.Engines.Ethereum.{
  Chain, BlockHeader, Ethereum, Withdrawal, eth_host, ethereum, finalize_block, process_withdrawals,
  on_state,
}

credit_split :
    (same : Bool) (theirs mine amount others gwei : ℕ)
    → (same ≡ true → theirs ≡ mine)
    → (if same then theirs + amount * gwei else mine) + others * gwei
      ≡ mine + ((if same then amount else 0) + others) * gwei
credit_split true theirs mine amount others gwei e = rw (e refl) (grind arith)
credit_split false theirs mine amount others gwei e = omega arith

module _ (c : Chain) where
  abbrev pub EthBuilder : Type 0
  EthBuilder = BlockBuilder (eth_host c) (ethereum c)

  -- The header of a finished block.
  abbrev pub sealed : EthBuilder → Hash → BlockHeader
  sealed b root = record b.header {
    state_root = root;
    gas_used = total_gas (ethereum c) b.receipts;
  }

  flushed_root :
      (b : EthBuilder) (block : c.Block)
      → (finalize (eth_host c) (ethereum c) b).0 ≡ ok block
      → (root : Hash) × ((c.db.flush b.statedb).0 ≡ ok root)
        × (block
            ≡ c.block_new
                (record b.header { state_root = root; gas_used = b.cumulative_gas_used })
                b.txs
                b.receipts
                b.withdrawals)
  unfolding finalize finalize_header flush_state finalize_block
  flushed_root b block e = elim (outcome_cases (c.db.flush b.statedb).0) [
    | inl (root, p) ↦ (root, p, ground (arith, p, e))
    | inr (inl (x, p)) ↦ absurd (ground (arith, p, e))
    | inr (inr p) ↦ absurd (ground (arith, p, e))
  ]

  -- Each withdrawal credits its account with its amount, in gwei.
  abbrev pub withdrawn : List Withdrawal → Ledger → Ledger
  withdrawn [] l = l
  withdrawn (w ∷ ws) l = withdrawn ws (credit w.address (w.amount * c.gwei) l)

  -- What withdrawals bring an account.
  abbrev pub amount_for : Address → List Withdrawal → ℕ
  amount_for a [] = 0
  amount_for a (w ∷ ws) = (if a == w.address then w.amount else 0) + amount_for a ws

  withdrawn_balance :
      (a : Address) (ws : List Withdrawal) (l : Ledger)
      → (withdrawn ws l).balance a ≡ l.balance a + amount_for a ws * c.gwei
  withdrawn_balance a [] l = omega arith
  withdrawn_balance a (w ∷ ws) l =
      withdrawn_balance a ws (credit w.address (w.amount * c.gwei) l)
      ∙ credit_split (a == w.address) (l.balance w.address) (l.balance a) w.amount (amount_for a ws)
          c.gwei (λ e. ap l.balance (sym ((==_iff a w.address).0 e)))

  -- A finished block holds the builder's transactions, receipts and withdrawals, under the builder's
  -- header with the state root that the database returned and the gas of all the receipts, which
  -- is at most the gas limit. The builder is one with its gas counted.
  pub finalize-sealed :
      (b : EthBuilder) {block : c.Block}
      → IsConsistent (ethereum c) b
      → (finalize (eth_host c) (ethereum c) b).0 ≡ ok block
      → (root : Hash) × ((c.db.flush b.statedb).0 ≡ ok root)
        × (block ≡ c.block_new (sealed b root) b.txs b.receipts b.withdrawals)
        × ((sealed b root).gas_used ≤ (sealed b root).gas_limit)
  finalize-sealed b {block} consistent e =
      let (root, p, q) = flushed_root b block e in
      (
        root,
        p,
        q
            ∙ ap
                (λ (gas : ℕ).
                  c.block_new (record b.header { state_root = root; gas_used = gas }) b.txs
                    b.receipts b.withdrawals)
                consistent.counted,
        omega (arith, consistent.counted, consistent.bounded),
      )

  module _ (laws : StateDbLaws c.db) where
    credit_one :
        (w : Withdrawal) (o : Option ℕ) (s : Ethereum × c.db.State)
        → (let step = or_panic o >>= λ amount. on_state c (c.db.add_balance w.address amount) in
            (step s).0 ≡ ok tt
            → (amount : ℕ) × (o ≡ some amount)
              × (laws.view (step s).1.1 ≡ credit w.address amount (laws.view s.1)))
    credit_one w none s e = absurd (ground (arith, e))
    credit_one w (some amount) s e = (amount, refl, laws.add_balance-Writes w.address amount s.1 e)

    after_one :
        (k : Action (Ethereum × c.db.State) c.db.Error (Unit {0})) (change : Ledger → Ledger)
        (r : Outcome c.db.Error (Unit {0})) (t : Ethereum × c.db.State)
        → ((k t).0 ≡ ok tt → laws.view (k t).1.1 ≡ change (laws.view t.1))
        → (after (λ _. k) r t).0 ≡ ok tt
        → (r ≡ ok tt) × (laws.view (after (λ _. k) r t).1.1 ≡ change (laws.view t.1))
    after_one k change (ok tt) t ih e = (refl, ih e)
    after_one k change (err x) t ih e = absurd (ground (arith, e))
    after_one k change panic t ih e = absurd (ground (arith, e))

    process_withdrawals_ledger :
        (ws : List Withdrawal) (s : Ethereum × c.db.State)
        → (process_withdrawals c ws s).0 ≡ ok tt
        → laws.view (process_withdrawals c ws s).1.1 ≡ withdrawn ws (laws.view s.1)
    unfolding process_withdrawals
    process_withdrawals_ledger [] s e = refl
    process_withdrawals_ledger (w ∷ ws) s e =
        let o = c.uint.mul w.amount c.gwei in
        let step = or_panic o >>= λ amount. on_state c (c.db.add_balance w.address amount) in
        let (one, rest) =
          after_one (process_withdrawals c ws) (withdrawn ws) (step s).0 (step s).1
            (process_withdrawals_ledger ws (step s).1) e in
        let (amount, p, credited) = credit_one w o s one in
        rest
        ∙ ap (withdrawn ws) credited
        ∙ ap (λ v. withdrawn ws (credit w.address v (laws.view s.1)))
            (mul_value c.uint w.amount c.gwei p)

    -- Withdrawals that are processed bring each account the sum of its amounts, in gwei.
    pub process_withdrawals_balance :
        (ws : List Withdrawal) (s : Ethereum × c.db.State) (a : Address)
        → (process_withdrawals c ws s).0 ≡ ok tt
        → (laws.view (process_withdrawals c ws s).1.1).balance a
          ≡ (laws.view s.1).balance a + amount_for a ws * c.gwei
    process_withdrawals_balance ws s a e =
        ap (λ (l : Ledger). l.balance a) (process_withdrawals_ledger ws s e)
        ∙ withdrawn_balance a ws (laws.view s.1)
