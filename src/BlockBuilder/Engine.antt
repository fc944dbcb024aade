-- ===== src/BlockBuilder/Engine.antt =====
-- The trait `Engine`: the type of the engine, its associated types, and its methods. A method that
-- takes `&mut self` returns the engine again.
use evm_executor_rs.Base.{ℕ, Option, List, Outcome, Action}
use evm_executor_rs.External.Traits.{Address, Bytes, Signer}
use evm_executor_rs.External.Host.{Host}
use evm_executor_rs.Types.{TxContext, ExecuteResult}

pub record Engine (h : Host) : Type 1 where
  pub Self : Type 0
  pub Receipt : Type 0
  pub Withdrawal : Type 0
  pub Block : Type 0
  pub NewBlockContext : Type 0
  -- `ReceiptTrait::gas_used`
  pub gas_used : Receipt → ℕ
  pub signer : Self → Signer
  pub evm_config : Self → h.evm.Config
  pub precompile : Self → h.evm.Precompiles
  pub new_block_header : Self → h.Header → NewBlockContext → Option h.Header
  -- cumulative gas, result, index of the transaction
  pub build_receipt : Self → ℕ → ExecuteResult → ℕ → h.Tx → h.Header → Receipt
  pub author : Self → h.Header → Outcome Bytes (Option Address)
  pub tx_context : Self → TxContext h → TxContext h
  pub process_withdrawals : List Withdrawal → Action (Self × h.db.State) h.db.Error (Unit {0})
  pub finalize_block :
      h.Header
      → List h.Tx
      → List Receipt
      → Option (List Withdrawal)
      → Action (Self × h.db.State) Bytes Block
