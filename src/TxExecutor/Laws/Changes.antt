-- ===== src/TxExecutor/Laws/Changes.antt =====
-- `apply_states` against the plain description of what it does to the ledger.
use evm_executor_rs.Base.{
  ℕ, Bool, true, false, Option, none, some, List, [], ◌∷◌, ◌==◌, if◌then◌else◌, pure,
}
use evm_executor_rs.External.Traits.{Address, Hash, Bytes}
use evm_executor_rs.External.Evm.{Apply, modify, delete, Basic}
use evm_executor_rs.External.Host.{Host}
use evm_executor_rs.External.StateDb.{
  StateDbLaws, Ledger, put_balance, put_nonce, put_code, put_storage, erase,
}
use evm_executor_rs.Types.{ExecuteResult}
use evm_executor_rs.TxExecutor.Machine.{TxExecutor, on_db}
use evm_executor_rs.TxExecutor.Changes.{
  set_code, set_slots, apply_modify, apply_change, apply_all, apply_states,
}
use evm_executor_rs.TxExecutor.Laws.Effects.{on_ledger, Does, pure-Does, bind-Does, on_db-Writes}

abbrev pub with_code : Address → Option Bytes → Ledger → Ledger
with_code a none l = l
with_code a (some c) l = put_code a c l

abbrev pub with_slots : Address → List (Hash × Hash) → Ledger → Ledger
with_slots a [] l = l
with_slots a ((i, v) ∷ slots) l = with_slots a slots (put_storage a i v l)

-- One change, after a run that succeeded or failed.
abbrev pub changed : Address → Bool → Apply → Ledger → Ledger
changed caller true (modify a basic code slots reset) l =
    let l' = if reset then erase a l else l in
    with_slots a slots (with_code a code (put_nonce a basic.nonce (put_balance a basic.balance l')))
changed caller false (modify a basic code slots reset) l =
    if caller == a then put_nonce a basic.nonce l else l
changed caller true (delete a) l = erase a l
changed caller false (delete a) l = l

abbrev pub all_changed : Address → Bool → List Apply → Ledger → Ledger
all_changed caller success [] l = l
all_changed caller success (c ∷ cs) l = all_changed caller success cs (changed caller success c l)

module _ (h : Host) (laws : StateDbLaws h.db) where
  set_slots-Does :
      (a : Address) (slots : List (Hash × Hash))
      → Does h laws (set_slots h a slots) (λ _. on_ledger (with_slots a slots))
  unfolding set_slots
  set_slots-Does a [] = pure-Does tt
  set_slots-Does a ((i, v) ∷ slots) =
      bind-Does
        (on_db-Writes (h.db.set_state a i v) (put_storage a i v) (laws.set_state-Writes a i v))
        (λ _. set_slots-Does a slots)

  set_code-Does :
      (a : Address) (code : Option Bytes)
      → Does h laws (set_code h a code) (λ _. on_ledger (with_code a code))
  set_code-Does a none = pure-Does tt
  set_code-Does a (some c) =
      on_db-Writes (h.db.set_code a c) (put_code a c) (laws.set_code-Writes a c)

  suicide-Does : (a : Address) → Does h laws (on_db h (h.db.suicide a)) (λ _. on_ledger (erase a))
  suicide-Does a = on_db-Writes (h.db.suicide a) (erase a) (laws.suicide-Writes a)

  reset-Does :
      (a : Address) (reset : Bool)
      → Does h laws
          (if reset then on_db h (h.db.suicide a) else pure tt)
          (λ _. on_ledger (λ l. if reset then erase a l else l))
  reset-Does a true = suicide-Does a
  reset-Does a false = pure-Does tt

  set_nonce-Does :
      (a : Address) (n : ℕ)
      → Does h laws (on_db h (h.db.set_nonce a n)) (λ _. on_ledger (put_nonce a n))
  set_nonce-Does a n = on_db-Writes (h.db.set_nonce a n) (put_nonce a n) (laws.set_nonce-Writes a n)

  apply_modify-Does :
      (a : Address) (basic : Basic) (code : Option Bytes) (slots : List (Hash × Hash))
      (reset : Bool)
      → Does h laws
          (apply_modify h a basic code slots reset)
          (λ _. on_ledger (changed a true (modify a basic code slots reset)))
  unfolding apply_modify
  apply_modify-Does a basic code slots reset = bind-Does (reset-Does a reset) λ _.
      bind-Does
        (on_db-Writes (h.db.set_balance a basic.balance) (put_balance a basic.balance)
          (laws.set_balance-Writes a basic.balance))
        λ _.
          bind-Does (set_nonce-Does a basic.nonce)
            λ _. bind-Does (set_code-Does a code) λ _. set_slots-Does a slots

  failed_change-Does :
      (self : TxExecutor h) (a : Address) (n : ℕ) (mine : Bool)
      → Does h laws
          (if mine then on_db h (h.db.set_nonce a n) else pure tt)
          (λ _. on_ledger (λ l. if mine then put_nonce a n l else l))
  failed_change-Does self a n true = set_nonce-Does a n
  failed_change-Does self a n false = pure-Does tt

  module _ (self : TxExecutor h) where
    apply_change-Does :
        (success : Bool) (c : Apply)
        → Does h laws
            (apply_change h self success c)
            (λ _. on_ledger (changed self.ctx.caller success c))
    unfolding apply_change
    apply_change-Does true (modify a basic code slots reset) =
        apply_modify-Does a basic code slots reset
    apply_change-Does false (modify a basic code slots reset) =
        failed_change-Does self a basic.nonce (self.ctx.caller == a)
    apply_change-Does true (delete a) = suicide-Does a
    apply_change-Does false (delete a) = pure-Does tt

    apply_all-Does :
        (success : Bool) (cs : List Apply)
        → Does h laws
            (apply_all h self success cs)
            (λ _. on_ledger (all_changed self.ctx.caller success cs))
    unfolding apply_all
    apply_all-Does success [] = pure-Does tt
    apply_all-Does success (c ∷ cs) =
        bind-Does (apply_change-Does success c) (λ _. apply_all-Does success cs)

    -- If `apply_states` succeeds, the ledger is changed as described, entry by entry and in order.
    pub apply_states-Does :
        (result : ExecuteResult)
        → Does h laws
            (apply_states h self result)
            (λ _. on_ledger (all_changed self.ctx.caller result.success result.states))
    unfolding apply_states
    apply_states-Does result = apply_all-Does result.success result.states
