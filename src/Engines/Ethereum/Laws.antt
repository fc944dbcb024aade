-- ===== src/Engines/Ethereum/Laws.antt =====
-- What the Ethereum engine promises to the block builder, and what its withdrawals do.
use evm_executor_rs.Base.{refl}
use evm_executor_rs.BlockBuilder.Laws.Interface.{EngineLaws}
use evm_executor_rs.Engines.Ethereum.{Chain, eth_host, ethereum, build_receipt, tx_context}

-- The engine charges for gas, leaves the transaction alone, and reports the gas of a result.
pub ethereum_laws : (c : Chain) → EngineLaws (eth_host c) (ethereum c)
unfolding build_receipt tx_context
ethereum_laws c = record {
  receipt_gas = λ engine cumulative result idx tx header. refl;
  keeps_fee = λ engine ctx. refl;
  keeps_tx = λ engine ctx. refl;
}
