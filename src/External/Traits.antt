-- ===== src/External/Traits.antt =====
-- The traits of `eth_types` that the executor is generic over, as records of their methods. An
-- address, a hash and a word are the numbers that their bytes spell; bytes are numbers below 256.
use evm_executor_rs.Base.{ℕ, Option, List}

abbrev pub Address : Type 0
Address = ℕ

abbrev pub Hash : Type 0
Hash = ℕ

abbrev pub Bytes : Type 0
Bytes = List ℕ

-- `eth_types::TransactionAccessTuple`
pub record AccessTuple : Type 0 where
  pub address : Address
  pub storage_keys : List Hash

-- `eth_types::Signer`
pub record Signer : Type 0 where
  pub chain_id : ℕ

pub record TxTrait (T : Type 0) : Type 0 where
  pub hash : T → Hash
  pub ty : T → ℕ
  pub nonce : T → ℕ
  pub gas : T → ℕ
  pub gas_limit : T → ℕ
  pub gas_price : T → Option ℕ → ℕ
  pub max_fee_per_gas : T → ℕ
  pub max_priority_fee_per_gas : T → ℕ
  pub effective_gas_tip : T → Option ℕ → Option ℕ
  pub to : T → Option Address
  pub value : T → ℕ
  pub input : T → Bytes
  pub access_list : T → Option (List AccessTuple)
  pub sender : T → Signer → Address

pub record BlockHeaderTrait (B : Type 0) : Type 0 where
  pub base_fee : B → Option ℕ
  pub number : B → ℕ
  pub gas_limit : B → ℕ
  pub timestamp : B → ℕ
  pub miner : B → Address
  pub set_state_root : Hash → B → B
  pub set_gas_used : ℕ → B → B
