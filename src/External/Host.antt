-- ===== src/External/Host.antt =====
-- All that the executor takes from elsewhere, in one record: the type parameters of the source and
-- the crates behind them.
use evm_executor_rs.Base.{ℕ}
use evm_executor_rs.External.Uint.{Uint, UintBytes}
use evm_executor_rs.External.Traits.{Bytes, TxTrait, BlockHeaderTrait}
use evm_executor_rs.External.Evm.{Evm}
use evm_executor_rs.External.StateDb.{StateDb}

pub record Host : Type 1 where
  pub Tx : Type 0
  pub Header : Type 0
  pub tx_trait : TxTrait Tx
  pub header_trait : BlockHeaderTrait Header
  pub uint : Uint
  pub uint_bytes : UintBytes
  pub db : StateDb
  pub evm : Evm
  -- `base::format::parse_ether`, a number of digits after the point
  pub parse_ether : ℕ → ℕ → Bytes
  -- `base::format::debug`
  pub debug : db.Error → Bytes
