-- ===== src/StateProxy/Ends.antt =====
-- A run of the interpreter returns only what its session can end with.
use evm_executor_rs.Base.{Yields, second-Yields, subst, arith}
use evm_executor_rs.External.Evm.{Session, finish, crash, ask, Ends}
use evm_executor_rs.External.Host.{Host}
use evm_executor_rs.Types.{TxContext}
use evm_executor_rs.StateProxy.{answer, run}

module _ (h : Host) (ctx : TxContext h) {A : Type 0} (P : A → Type 0) where
  pub run-Ends : (session : Session A) → Ends P session → Yields (run h ctx session) P
  unfolding run
  run-Ends (finish a) p s b e = subst P (cc) p
  run-Ends crash p s b e = absurd (ground (arith, e))
  run-Ends (ask q next) p s b e =
      second-Yields (answer h ctx q) (λ a. run h ctx (next a)) P (λ a. run-Ends (next a) (p a)) s b
        e
