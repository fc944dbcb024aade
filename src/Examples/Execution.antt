-- ===== src/Examples/Execution.antt =====
-- A transaction executed in the small world, with a run that fails.
use evm_executor_rs.Base.{
  ◌+◌, ◌≤◌, ◌≡◌, u64_mod, panic, refl, ok, err, false, none, some, [], ◌∷◌, arith,
}
use evm_executor_rs.External.Evm.{modify, Query, ask, finish}
use evm_executor_rs.External.Host.{Host}
use evm_executor_rs.Types.{TxContext, ExecuteResult, insufficient_funds}
use evm_executor_rs.StateProxy
use evm_executor_rs.TxExecutor.Machine.{TxExecutor, Vars}
use evm_executor_rs.TxExecutor.Checks.{
  compare_nonce, check_balance, check_nonce, check_base_fee, buy_gas, refund_gas,
}
use evm_executor_rs.TxExecutor.Changes.{
  apply_states, apply_all, apply_change, apply_modify, set_slots,
}
use evm_executor_rs.TxExecutor.Execute.{
  charge, calculate_txfee, exec_tx, result_of, number_logs, generate_access_list, settle, execute,
}
use evm_executor_rs.TxExecutor.Laws.Gas.{execute_used_gas}
use evm_executor_rs.TxExecutor.Laws.Admission.{execute_admits}
use evm_executor_rs.TxExecutor.Laws.Accounts.{executed, share, execute_ledger, execute_failed_run}
use evm_executor_rs.TxExecutor.Laws.Unchanged.{execute_refused}
use evm_executor_rs.Engines.Ethereum.{eth_host}
use evm_executor_rs.Examples.World.{chain, header, start, ledger_db_laws, small_evm_laws}

abbrev host : Host
host = eth_host chain

abbrev context : TxContext host
context = record {
  chain_id = 1;
  caller = 1;
  cfg = tt;
  precompile = tt;
  tx = record { target = 0; nonce = 3 };
  header = header;
  no_gas_fee = false;
  extra_fee = some 2;
  gas_overcommit = false;
  block_hash_getter = λ current target. 0;
  miner = some 2;
  block_base_fee = 3;
  difficulty = 0;
}

abbrev self : TxExecutor host
self = record { ctx = context; gas_price = 4 }

abbrev vars : Vars host
vars = record { state_db = start; initial_gas = 0; gas = 0 }

abbrev failed : ExecuteResult
failed = record {
  success = false;
  used_gas = 5;
  err = [];
  logs = [];
  states = modify 1 (record { balance = 58; nonce = 4 }) none [] false ∷ [];
}

executed_ok : (execute host self vars).0 ≡ ok failed
unfolding execute check_nonce check_base_fee buy_gas exec_tx StateProxy.run StateProxy.answer
    StateProxy.basic result_of number_logs generate_access_list settle charge calculate_txfee
    apply_states apply_all apply_change apply_modify set_slots refund_gas
executed_ok = refl

-- The hash of a block of a number that has more than 64 bits.
far_panics : (StateProxy.run host context (ask (Query.block_hash u64_mod) finish) start).0 ≡ panic
unfolding StateProxy.run StateProxy.answer StateProxy.block_hash
far_panics = refl

execute_used_gas_example : 5 ≤ 10
execute_used_gas_example = execute_used_gas host small_evm_laws self refl vars executed_ok

execute_admits_example :
    ((ledger_db_laws.view start).nonce 1 ≡ 3)
    × (3 ≤ 6)
    × (62 ≤ (ledger_db_laws.view start).balance 1)
execute_admits_example = execute_admits host ledger_db_laws self refl vars executed_ok

execute_ledger_example :
    ledger_db_laws.view (execute host self vars).1.state_db
    ≡ executed self failed (ledger_db_laws.view start)
execute_ledger_example =
    execute_ledger host ledger_db_laws small_evm_laws self refl (omega arith) vars refl executed_ok

-- Account 1 pays 2 and 5 gas at 4.
execute_failed_run_example :
    (ledger_db_laws.view (execute host self vars).1.state_db).balance 1 + share 1 (some 1) 22
    ≡ (ledger_db_laws.view start).balance 1 + share 1 (some 2) 7
execute_failed_run_example =
    execute_failed_run host ledger_db_laws small_evm_laws self refl (omega arith) vars refl
      executed_ok refl 1

-- The same transaction with an extra fee that the caller cannot pay.
abbrev poor : TxExecutor host
poor = record self { ctx = record context { extra_fee = some 1000 } }

poor_refused : (execute host poor vars).0 ≡ err insufficient_funds
unfolding execute check_nonce compare_nonce check_base_fee buy_gas check_balance
poor_refused = refl

execute_refused_example :
    ledger_db_laws.view (execute host poor vars).1.state_db ≡ ledger_db_laws.view start
execute_refused_example =
    execute_refused host ledger_db_laws poor vars insufficient_funds poor_refused tt
