-- ===== src/External/Evm.antt =====
-- The interpreter of the crate `evm`. A run is a conversation with the backend: it asks for what
-- it wants to know of the chain, and ends with an outcome or crashes. It may be any such
-- conversation, and reaches the state only by what it asks.
use evm_executor_rs.Base.{ℕ, ◌≤◌, Bool, Option, List}
use evm_executor_rs.External.Traits.{Address, Hash, Bytes}

-- `evm::backend::Basic`
pub record Basic : Type 0 where
  pub balance : ℕ
  pub nonce : ℕ

-- `evm::backend::Apply<BTreeMap<H256, H256>>`; the map is listed in the order of its keys.
pub data Apply : Type 0 where
  modify : Address → Basic → Option Bytes → List (Hash × Hash) → Bool → Apply
  delete : Address → Apply

-- `evm::backend::Log`
pub record EvmLog : Type 0 where
  pub address : Address
  pub topics : List Hash
  pub payload : Bytes

-- The methods of `evm::backend::Backend`, and what each returns.
pub data Query : Type 0 where
  block_base_fee_per_gas block_coinbase block_difficulty block_gas_limit block_number : Query
  block_timestamp chain_id gas_price origin : Query
  block_hash : ℕ → Query
  basic code exists : Address → Query
  original_storage storage : Address → Hash → Query

abbrev pub Answer : Query → Type 0
Answer (Query.basic a) = Basic
Answer (Query.code a) = Bytes
Answer (Query.exists a) = Bool
Answer (Query.original_storage a i) = Option Hash
Answer _ = ℕ

pub data Session (A : Type 0) : Type 0 where
  finish : A → Session A
  crash : Session A
  ask : (q : Query) → (Answer q → Session A) → Session A

-- What is read of the `StackExecutor` when `transact_call` or `transact_create` has returned.
pub record Transacted : Type 0 where
  pub is_succeed : Bool
  pub output : Bytes
  pub used_gas : ℕ
  pub refunded_gas : ℕ
  pub applies : List Apply
  pub logs : List EvmLog

pub record Evm : Type 1 where
  pub Config : Type 0
  pub Precompiles : Type 0
  -- caller, address, value, input, gas limit, access list
  pub transact_call :
      Config
      → Precompiles
      → Address
      → Address
      → ℕ
      → Bytes
      → ℕ
      → List (Address × List Hash)
      → Session Transacted
  pub transact_create :
      Config
      → Precompiles
      → Address
      → ℕ
      → Bytes
      → ℕ
      → List (Address × List Hash)
      → Session Transacted

-- Every end of a session satisfies `P`.
abbrev pub Ends : {A : Type 0} → (A → Type 0) → Session A → Type 0
Ends P (finish a) = P a
Ends P crash = Unit
Ends P (ask q next) = (a : Answer q) → Ends P (next a)

-- The interpreter uses no more gas than its limit.
pub record EvmLaws (evm : Evm) : Type 0 where
  pub call_gas :
      (cfg : evm.Config) (pre : evm.Precompiles) (caller to : Address) (value : ℕ) (input : Bytes)
      (gas : ℕ) (al : List (Address × List Hash))
      → Ends (λ t. t.used_gas ≤ gas) (evm.transact_call cfg pre caller to value input gas al)
  pub create_gas :
      (cfg : evm.Config) (pre : evm.Precompiles) (caller : Address) (value : ℕ) (input : Bytes)
      (gas : ℕ) (al : List (Address × List Hash))
      → Ends (λ t. t.used_gas ≤ gas) (evm.transact_create cfg pre caller value input gas al)
