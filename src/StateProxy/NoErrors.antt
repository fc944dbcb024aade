-- ===== src/StateProxy/NoErrors.antt =====
-- A run of the interpreter against the proxy never ends in an error of the executor: the errors of
-- the database are unwrapped.
use evm_executor_rs.Base.{◌≡◌, Outcome, ok, err, panic, Action, after, ◌>>=◌, arith}
use evm_executor_rs.External.Evm.{Query, Session, finish, crash, ask}
use evm_executor_rs.External.Host.{Host}
use evm_executor_rs.Types.{TxContext}
use evm_executor_rs.StateProxy.{unwrap, basic, block_hash, storage, original_storage, answer, run}

abbrev pub NoErrors : {S E A : Type 0} → Action S E A → Type 0
NoErrors {S} {E} m = (s : S) (x : E) → (m s).0 ≡ err x → ⊥

module _ {S E A B : Type 0} where
  after-NoErrors :
      (f : A → Action S E B) (r : Outcome E A) (t : S) (x : E)
      → (r ≡ err x → ⊥)
      → ((a : A) → NoErrors (f a))
      → (after f r t).0 ≡ err x
      → ⊥
  after-NoErrors f (ok a) t x k l e = l a t x e
  after-NoErrors f (err y) t x k l e = k (ground (arith, e))
  after-NoErrors f panic t x k l e = ground (arith, e)

  bind-NoErrors :
      (m : Action S E A) (f : A → Action S E B)
      → NoErrors m
      → ((a : A) → NoErrors (f a))
      → NoErrors (m >>= f)
  bind-NoErrors m f k l s x e = after-NoErrors f (m s).0 (m s).1 x (k s x) l e

unwrap-NoErrors : {S E F A : Type 0} (m : Action S E A) → NoErrors (unwrap {F = F} m)
unwrap-NoErrors m s x e = ground (arith, e)

module _ (h : Host) (ctx : TxContext h) where
  answer-NoErrors : (q : Query) → NoErrors (answer h ctx q)
  unfolding answer basic storage original_storage block_hash
  answer-NoErrors (Query.basic a) s x e = ground (arith, e)
  answer-NoErrors (Query.code a) s x e = ground (arith, e)
  answer-NoErrors (Query.exists a) s x e = ground (arith, e)
  answer-NoErrors (Query.original_storage a i) s x e = ground (arith, e)
  answer-NoErrors (Query.storage a i) s x e = ground (arith, e)
  answer-NoErrors (Query.block_hash n) s x e = ground (arith, e)
  answer-NoErrors _ s x e = ground (arith, e)

  pub run-NoErrors : {A : Type 0} (session : Session A) → NoErrors (run h ctx session)
  unfolding run
  run-NoErrors (finish a) s x e = ground (arith, e)
  run-NoErrors crash s x e = ground (arith, e)
  run-NoErrors (ask q next) s x e =
      bind-NoErrors (answer h ctx q) (λ a. run h ctx (next a)) (answer-NoErrors q)
        (λ a. run-NoErrors (next a)) s x e
