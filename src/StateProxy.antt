-- ===== src/StateProxy.antt =====
-- The backend of src/state_proxy.rs: each method of `evm::backend::Backend` as the answer to a
-- query, and a run of the interpreter against it. An error of the database is unwrapped: a panic.
pub mod Reads
pub mod Told
pub mod Ends
pub mod NoErrors
use evm_executor_rs.Base.{
  ℕ, Bool, Option, none, some, Outcome, ok, err, panic, Action, pure, or_panic, ◌>>=◌, ◌==◌,
  if◌then◌else◌,
}
use evm_executor_rs.External.Traits.{Address, Hash}
use evm_executor_rs.External.Evm.{Query, Answer, Basic, Session, finish, crash, ask}
use evm_executor_rs.External.Host.{Host}
use evm_executor_rs.Types.{ExecuteError, TxContext}

-- `unwrap` of a result.
abbrev pub unwrap : {S E F A : Type 0} → Action S E A → Action S F A
unwrap m s =
    let (r, s') = m s in elim r [ ok a ↦ (ok a, s') | err e ↦ (panic, s') | panic ↦ (panic, s') ]

abbrev pub Proxy : Host → Type 0 → Type 0
Proxy h A = Action h.db.State (ExecuteError h.db.Error) A

module _ (h : Host) (ctx : TxContext h) where
  unfoldable pub basic : Address → Proxy h Basic
  basic address = do
    (balance, nonce) ← unwrap (h.db.get_account_basic address)
    pure (record { balance = balance; nonce = nonce })

  unfoldable pub block_coinbase : Address
  block_coinbase = elim ctx.miner [ some miner ↦ miner | none ↦ h.header_trait.miner ctx.header ]

  -- The number is one of 256 bits, and its cast to 64 bits panics if it is too large.
  unfoldable pub block_hash : ℕ → Proxy h Hash
  block_hash number = do
    number ← or_panic (h.uint_bytes.as_u64 number)
    pure (ctx.block_hash_getter (h.header_trait.number ctx.header) number)

  unfoldable pub storage : Address → Hash → Proxy h Hash
  storage address index = unwrap (h.db.get_state address index)

  -- A slot that holds the zero word is `None`.
  unfoldable pub original_storage : Address → Hash → Proxy h (Option Hash)
  original_storage address index = do
    val ← unwrap (h.db.get_state address index)
    pure (if val == 0 then none else some val)

  unfoldable pub answer : (q : Query) → Proxy h (Answer q)
  answer Query.block_base_fee_per_gas = pure ctx.block_base_fee
  answer Query.block_coinbase = pure block_coinbase
  answer Query.block_difficulty = pure ctx.difficulty
  answer Query.block_gas_limit = pure (h.header_trait.gas_limit ctx.header)
  answer Query.block_number = pure (h.header_trait.number ctx.header)
  answer Query.block_timestamp = pure (h.header_trait.timestamp ctx.header)
  answer Query.chain_id = pure ctx.chain_id
  answer Query.gas_price = pure (h.tx_trait.gas_price ctx.tx (h.header_trait.base_fee ctx.header))
  answer Query.origin = pure ctx.caller
  answer (Query.block_hash number) = block_hash number
  answer (Query.basic address) = basic address
  answer (Query.code address) = unwrap (h.db.get_code address)
  answer (Query.exists address) = unwrap (h.db.exist address)
  answer (Query.original_storage address index) = original_storage address index
  answer (Query.storage address index) = storage address index

  -- The interpreter's run: it asks the proxy until it ends.
  unfoldable pub run : {A : Type 0} → Session A → Proxy h A
  run (finish a) s = (ok a, s)
  run crash s = (panic, s)
  run (ask q next) s = (answer q >>= λ a. run (next a)) s
