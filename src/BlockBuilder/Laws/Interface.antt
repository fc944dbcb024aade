-- ===== src/BlockBuilder/Laws/Interface.antt =====
-- What the block builder relies on: an engine that charges for gas and reports it in its receipts,
-- and transactions whose two readings of the gas limit agree.
use evm_executor_rs.Base.{ℕ, ◌≡◌}
use evm_executor_rs.External.Host.{Host}
use evm_executor_rs.Types.{TxContext, ExecuteResult}
use evm_executor_rs.BlockBuilder.Engine.{Engine}

pub record EngineLaws (h : Host) (e : Engine h) : Type 0 where
  pub receipt_gas :
      (engine : e.Self) (cumulative : ℕ) (result : ExecuteResult) (idx : ℕ) (tx : h.Tx)
      (header : h.Header)
      → e.gas_used (e.build_receipt engine cumulative result idx tx header) ≡ result.used_gas
  pub keeps_fee :
      (engine : e.Self) (ctx : TxContext h) → (e.tx_context engine ctx).no_gas_fee ≡ ctx.no_gas_fee
  pub keeps_tx : (engine : e.Self) (ctx : TxContext h) → (e.tx_context engine ctx).tx ≡ ctx.tx

pub record TxLaws (h : Host) : Type 0 where
  pub gas-gas_limit : (tx : h.Tx) → h.tx_trait.gas tx ≡ h.tx_trait.gas_limit tx
