-- ===== src/Types.antt =====
-- The types of src/types.rs: errors, the context of a transaction and the result of its execution.
use evm_executor_rs.Base.{ℕ, Bool, Option, List}
use evm_executor_rs.External.Traits.{Address, Hash, Bytes}
use evm_executor_rs.External.Evm.{Apply}
use evm_executor_rs.External.Host.{Host}

-- `E` is `statedb::Error`.
pub data ExecuteError (E : Type 0) : Type 0 where
  not_supported : ExecuteError E
  insufficient_funds : ExecuteError E
  -- transaction hash, base fee of the block and of the transaction in gwei, block number
  insufficient_base_fee : Hash → Bytes → Bytes → ℕ → ExecuteError E
  execute_payment_tx_fail : Bytes → ExecuteError E
  -- expect, got
  nonce_too_low : ℕ → ℕ → ExecuteError E
  nonce_too_high : ℕ → ℕ → ExecuteError E
  state_error : E → ExecuteError E

-- `cfg` and `precompile` are what the interpreter takes; `block_hash_getter` is the method
-- `get_hash` of the trait `BlockHashGetter`, from the current and the wanted block number.
pub record TxContext (h : Host) : Type 0 where
  pub chain_id : ℕ
  pub caller : Address
  pub cfg : h.evm.Config
  pub precompile : h.evm.Precompiles
  pub tx : h.Tx
  pub header : h.Header
  pub no_gas_fee : Bool
  pub extra_fee : Option ℕ
  pub gas_overcommit : Bool
  pub block_hash_getter : ℕ → ℕ → Hash
  pub miner : Option Address
  pub block_base_fee : ℕ
  pub difficulty : ℕ

-- `eth_types::Log`, as the executor fills it in.
pub record Log : Type 0 where
  pub address : Address
  pub topics : List Hash
  pub payload : Bytes
  pub block_number : ℕ
  pub transaction_hash : Hash
  pub transaction_index : ℕ
  pub block_hash : Hash
  pub log_index : ℕ
  pub removed : Bool

-- `err` holds the bytes that the run returned.
pub record ExecuteResult : Type 0 where
  pub success : Bool
  pub used_gas : ℕ
  pub err : Bytes
  pub logs : List Log
  pub states : List Apply
