-- ===== src/StateProxy/Told.antt =====
-- What the interpreter is told in a run: the truth about one ledger, or nothing more after a query
-- that panics.
use evm_executor_rs.Base.{◌≤◌, ◌<◌, ◌≡◌, ◌≢◌, ◌⊎◌, none, some, ok, Action, u64_mod}
use evm_executor_rs.External.Evm.{Query, Answer, Session, finish, crash, ask}
use evm_executor_rs.External.Host.{Host}
use evm_executor_rs.External.StateDb.{Ledger}
use evm_executor_rs.Types.{TxContext}
use evm_executor_rs.StateProxy.{basic, block_coinbase, block_hash, storage, original_storage}

-- An action that returns nothing.
abbrev pub Fails : {S E A : Type 0} → Action S E A → S → Type 0
Fails {A = A} m s = (a : A) → (m s).0 ≢ ok a

module _ (h : Host) (ctx : TxContext h) where
  -- What an answer has to be, for a ledger: the account's or the transaction's own. Nothing is said
  -- of whether an account exists.
  abbrev pub IsTold : Ledger → (q : Query) → Answer q → Type 0
  IsTold l Query.block_base_fee_per_gas a = a ≡ ctx.block_base_fee
  IsTold l Query.block_coinbase a =
      (ctx.miner ≡ some a) ⊎ ((ctx.miner ≡ none) × (a ≡ h.header_trait.miner ctx.header))
  IsTold l Query.block_difficulty a = a ≡ ctx.difficulty
  IsTold l Query.block_gas_limit a = a ≡ h.header_trait.gas_limit ctx.header
  IsTold l Query.block_number a = a ≡ h.header_trait.number ctx.header
  IsTold l Query.block_timestamp a = a ≡ h.header_trait.timestamp ctx.header
  IsTold l Query.chain_id a = a ≡ ctx.chain_id
  IsTold l Query.gas_price a = a ≡ h.tx_trait.gas_price ctx.tx (h.header_trait.base_fee ctx.header)
  IsTold l Query.origin a = a ≡ ctx.caller
  IsTold l (Query.block_hash n) a =
      (n < u64_mod) × (a ≡ ctx.block_hash_getter (h.header_trait.number ctx.header) n)
  IsTold l (Query.basic x) a = (a.balance ≡ l.balance x) × (a.nonce ≡ l.nonce x)
  IsTold l (Query.code x) a = a ≡ l.code x
  IsTold l (Query.exists x) a = Unit
  IsTold l (Query.original_storage x i) a =
      ((l.storage x i ≡ 0) × (a ≡ none)) ⊎ ((l.storage x i ≢ 0) × (a ≡ some (l.storage x i)))
  IsTold l (Query.storage x i) a = a ≡ l.storage x i

  -- Why a query panics: the database fails, or a block number is too large.
  abbrev pub IsStuck : Query → h.db.State → Type 0
  IsStuck (Query.block_hash n) s = u64_mod ≤ n
  IsStuck (Query.basic x) s = Fails (h.db.get_account_basic x) s
  IsStuck (Query.code x) s = Fails (h.db.get_code x) s
  IsStuck (Query.exists x) s = Fails (h.db.exist x) s
  IsStuck (Query.original_storage x i) s = Fails (h.db.get_state x i) s
  IsStuck (Query.storage x i) s = Fails (h.db.get_state x i) s
  IsStuck _ s = ⊥

  -- A session that ends with a value, told the truth about a ledger at every query.
  pub data Ran (l : Ledger) {A : Type 0} : Session A → A → Type 0 where
    finished : (a : A) → Ran l (finish a) a
    told :
        (q : Query) (next : Answer q → Session A) (x : Answer q) {a : A}
        → IsTold l q x
        → Ran l (next x) a
        → Ran l (ask q next) a

  -- A session that ends with a panic, told the truth until then: its own, or that of a query.
  pub data Stops (view : h.db.State → Ledger) (l : Ledger) {A : Type 0} : Session A → Type 0 where
    crashed : Stops view l crash
    stuck :
        (q : Query) (next : Answer q → Session A) (s : h.db.State)
        → view s ≡ l
        → IsStuck q s
        → Stops view l (ask q next)
    told :
        (q : Query) (next : Answer q → Session A) (x : Answer q)
        → IsTold l q x
        → Stops view l (next x)
        → Stops view l (ask q next)
