-- ===== src/Examples/Building.antt =====
-- A block built in the small world.
use evm_executor_rs.Base.{ℕ, ◌≡◌, refl, ok, ◌+◌, ◌*◌, ◌≤◌, List, some, none, [], ◌∷◌, arith}
use evm_executor_rs.External.Host.{Host}
use evm_executor_rs.BlockBuilder.Engine.{Engine}
use evm_executor_rs.BlockBuilder.Builder.{BlockBuilder, commit, truncate_and_revert}
use evm_executor_rs.BlockBuilder.Laws.Interface.{TxLaws}
use evm_executor_rs.BlockBuilder.Laws.Gas.{IsConsistent, commit-IsConsistent}
use evm_executor_rs.BlockBuilder.Laws.Truncate.{truncated, truncate_and_revert-truncated}
use evm_executor_rs.BlockBuilder.Laws.Undo.{commit_all, truncate_and_revert-commit_all}
use evm_executor_rs.Engines.Ethereum.{
  Receipt, Withdrawal, eth_host, ethereum, process_withdrawals, finalize_block,
}
use evm_executor_rs.Engines.Ethereum.Blocks.{sealed, finalize-sealed, process_withdrawals_balance}
use evm_executor_rs.BlockBuilder.Finish.{finalize, finalize_header, flush_state}
use evm_executor_rs.Engines.Ethereum.Laws.{ethereum_laws}
use evm_executor_rs.Examples.World.{chain, header, start, SmallTx, small_evm_laws, ledger_db_laws}

abbrev host : Host
host = eth_host chain

abbrev engine : Engine host
engine = ethereum chain

small_tx_laws : TxLaws host
small_tx_laws = record { gas-gas_limit = λ tx. refl }

abbrev tx : SmallTx
tx = record { target = 0; nonce = 3 }

abbrev receipt : ℕ → Receipt
receipt cumulative = record {
  status = 1;
  transaction_hash = 99;
  transaction_index = 0;
  ty = some 2;
  gas_used = 5;
  cumulative_gas_used = cumulative;
  logs = [];
  logs_bloom = [];
  contract_address = none;
  root = none;
  block_hash = none;
  block_number = none;
}

-- A builder that holds one transaction, of 5 gas.
abbrev builder : BlockBuilder host engine
builder = record {
  engine = record { signer = record { chain_id = 1 } };
  header = header;
  statedb = start;
  signer = record { chain_id = 1 };
  miner = some 2;
  evm_cfg = tt;
  precompile = tt;
  cumulative_gas_used = 5;
  prefetcher = λ current target. 0;
  txs = tx ∷ [];
  receipts = receipt 5 ∷ [];
  withdrawals = none;
}

builder-IsConsistent : IsConsistent engine builder
builder-IsConsistent = record { paired = refl; counted = refl; bounded = omega arith }

commit-IsConsistent_example : IsConsistent engine (commit host engine tx builder).1
commit-IsConsistent_example =
    commit-IsConsistent host engine small_evm_laws small_tx_laws (ethereum_laws chain) tx builder
      (omega arith) builder-IsConsistent

truncate_and_revert-truncated_example :
    (truncate_and_revert host engine 0 9 builder ≡ some (truncated host engine 0 9 builder))
    × IsConsistent engine (truncated host engine 0 9 builder)
truncate_and_revert-truncated_example =
    truncate_and_revert-truncated host engine 0 9 builder (omega arith) builder-IsConsistent
      (omega arith)

truncate_and_revert-commit_all_example :
    truncate_and_revert host engine 1 9 (commit_all host engine (tx ∷ tx ∷ []) builder)
    ≡ some (record builder { statedb = (commit_all host engine (tx ∷ tx ∷ []) builder).statedb })
truncate_and_revert-commit_all_example =
    truncate_and_revert-commit_all host engine small_evm_laws small_tx_laws (ethereum_laws chain)
      (tx ∷ tx ∷ []) 9 builder (omega arith) builder-IsConsistent

finished : (finalize host engine builder).0 ≡ ok (sealed chain builder 7)
unfolding finalize finalize_header flush_state finalize_block
finished = refl

finalize-sealed_example :
    (root : ℕ) × ((chain.db.flush start).0 ≡ ok root)
    × (sealed chain builder 7 ≡ sealed chain builder root)
    × (5 ≤ 30)
finalize-sealed_example = finalize-sealed chain builder builder-IsConsistent finished

abbrev withdrawals : List Withdrawal
withdrawals =
    record { address = 1; amount = 2 }
    ∷ record { address = 4; amount = 1 }
    ∷ record { address = 1; amount = 3 }
    ∷ []

withdrawals_ok : (process_withdrawals chain withdrawals (builder.engine, start)).0 ≡ ok tt
unfolding process_withdrawals
withdrawals_ok = refl

process_withdrawals_balance_example :
    (ledger_db_laws.view
        (process_withdrawals chain withdrawals (builder.engine, start)).1.1).balance
      1
    ≡ (ledger_db_laws.view start).balance 1 + 5 * 1000000000
process_withdrawals_balance_example =
    process_withdrawals_balance chain ledger_db_laws withdrawals (builder.engine, start) 1
      withdrawals_ok
