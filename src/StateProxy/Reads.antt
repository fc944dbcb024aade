-- ===== src/StateProxy/Reads.antt =====
-- The interpreter sees the ledger of the database and cannot change it.
use evm_executor_rs.Base.{◌≡◌, refl, arith, bind-Keeps}
use evm_executor_rs.External.Evm.{Query, Session, finish, crash, ask}
use evm_executor_rs.External.Host.{Host}
use evm_executor_rs.External.StateDb.{StateDbLaws}
use evm_executor_rs.Types.{TxContext}
use evm_executor_rs.StateProxy.{basic, block_hash, storage, original_storage, answer, run}

module _ (h : Host) (laws : StateDbLaws h.db) (ctx : TxContext h) where
  -- No query changes the ledger, whether it is answered or panics.
  pub answer-view : (q : Query) (s : h.db.State) → laws.view (answer h ctx q s).1 ≡ laws.view s
  unfolding answer basic storage original_storage block_hash
  answer-view (Query.basic a) s = ground (arith, (laws.get_account_basic-Reads a s).0)
  answer-view (Query.code a) s = ground (arith, (laws.get_code-Reads a s).0)
  answer-view (Query.exists a) s = ground (arith, laws.exist-view a s)
  answer-view (Query.original_storage a i) s = ground (arith, (laws.get_state-Reads a i s).0)
  answer-view (Query.storage a i) s = ground (arith, (laws.get_state-Reads a i s).0)
  answer-view (Query.block_hash n) s = ground arith
  answer-view _ s = refl

  -- Whatever the interpreter asks and however it ends, the ledger is as before.
  pub run-view :
      {A : Type 0} (session : Session A) (s : h.db.State)
      → laws.view (run h ctx session s).1 ≡ laws.view s
  unfolding run
  run-view (finish a) s = refl
  run-view crash s = refl
  run-view (ask q next) s =
      bind-Keeps laws.view (answer h ctx q) (λ a. run h ctx (next a)) (answer-view q)
        (λ a. run-view (next a)) s
