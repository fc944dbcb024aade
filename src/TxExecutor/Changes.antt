-- ===== src/TxExecutor/Changes.antt =====
-- `apply_states`: the changes that the interpreter made, written to the database.
use evm_executor_rs.Base.{
  Bool, true, false, Option, none, some, List, [], ◌∷◌, ◌==◌, if◌then◌else◌, pure, ◌>>◌,
}
use evm_executor_rs.External.Traits.{Address, Hash, Bytes}
use evm_executor_rs.External.Evm.{Apply, modify, delete, Basic}
use evm_executor_rs.External.Host.{Host}
use evm_executor_rs.Types.{ExecuteResult}
use evm_executor_rs.TxExecutor.Machine.{TxExecutor, Exec, on_db}

module _ (h : Host) where
  -- `if let Some(code) = code`
  abbrev pub set_code : Address → Option Bytes → Exec h (Unit {0})
  set_code address none = pure tt
  set_code address (some code) = on_db h (h.db.set_code address code)

  -- `for (index, value) in storage`
  unfoldable pub set_slots : Address → List (Hash × Hash) → Exec h (Unit {0})
  set_slots address [] = pure tt
  set_slots address ((index, value) ∷ storage) =
      on_db h (h.db.set_state address index value) >> set_slots address storage

  -- `Apply::Modify` of a run that succeeded.
  unfoldable pub apply_modify :
      Address → Basic → Option Bytes → List (Hash × Hash) → Bool → Exec h (Unit {0})
  apply_modify address basic code storage reset_storage = do
    if reset_storage then on_db h (h.db.suicide address) else pure tt
    on_db h (h.db.set_balance address basic.balance)
    on_db h (h.db.set_nonce address basic.nonce)
    set_code address code
    set_slots address storage

  -- One change of a run that succeeded, or of one that failed: then only the caller's nonce counts.
  unfoldable pub apply_change : TxExecutor h → Bool → Apply → Exec h (Unit {0})
  apply_change self true (modify address basic code storage reset_storage) =
      apply_modify address basic code storage reset_storage
  apply_change self false (modify address basic code storage reset_storage) =
      if self.ctx.caller == address then on_db h (h.db.set_nonce address basic.nonce) else pure tt
  apply_change self true (delete address) = on_db h (h.db.suicide address)
  apply_change self false (delete address) = pure tt

  unfoldable pub apply_all : TxExecutor h → Bool → List Apply → Exec h (Unit {0})
  apply_all self success [] = pure tt
  apply_all self success (change ∷ changes) =
      apply_change self success change >> apply_all self success changes

  unfoldable pub apply_states : TxExecutor h → ExecuteResult → Exec h (Unit {0})
  apply_states self result = apply_all self result.success result.states
