-- ===== src/Engines/Ethereum.antt =====
-- `Ethereum` of src/engines.rs: its types, and its implementation of `Engine`.
pub mod Laws
pub mod Blocks
use evm_executor_rs.Base.{
  ℕ, Bool, true, false, Option, none, some, List, [], ◌∷◌, add_u64, Outcome, ok, err, panic, Action,
  pure, or_panic, ◌>>=◌, ◌>>◌,
}
use evm_executor_rs.External.Traits.{Address, Hash, Bytes, Signer, TxTrait, BlockHeaderTrait}
use evm_executor_rs.External.Uint.{Uint, UintBytes}
use evm_executor_rs.External.StateDb.{StateDb}
use evm_executor_rs.External.Evm.{Evm}
use evm_executor_rs.External.Host.{Host}
use evm_executor_rs.Types.{TxContext, Log, ExecuteResult}
use evm_executor_rs.BlockBuilder.Engine.{Engine}
use evm_executor_rs.Engines.GasMarket.{calc_gas_limit, calc_base_fee}

-- `eth_types::BlockHeader`, the fields that the crate names.
pub record BlockHeader : Type 0 where
  pub parent_hash : Hash
  pub number : ℕ
  pub gas_limit : ℕ
  pub gas_used : ℕ
  pub timestamp : ℕ
  pub miner : Address
  pub mix_hash : Hash
  pub extra_data : Bytes
  pub base_fee_per_gas : ℕ
  pub difficulty : ℕ
  pub state_root : Hash

-- `eth_types::Receipt`
pub record Receipt : Type 0 where
  pub status : ℕ
  pub transaction_hash : Hash
  pub transaction_index : ℕ
  pub ty : Option ℕ
  pub gas_used : ℕ
  pub cumulative_gas_used : ℕ
  pub logs : List Log
  pub logs_bloom : Bytes
  pub contract_address : Option Address
  pub root : Option Hash
  pub block_hash : Option Hash
  pub block_number : Option ℕ

-- `eth_types::Withdrawal`
pub record Withdrawal : Type 0 where
  pub address : Address
  pub amount : ℕ

pub record ConsensusBlockInfo : Type 0 where
  pub gas_limit : ℕ
  pub timestamp : ℕ
  pub random : Hash
  pub extra : Bytes
  pub coinbase : Address

pub record Ethereum : Type 0 where
  pub signer : Signer

-- What the engine takes from other crates: `TransactionInner` with its trait, the getter `base_fee`
-- of the header, `hash`, the sum of two `SU64`, `gwei`, `create_bloom`, `Block::new`,
-- `Config::shanghai` and the precompiles.
pub record Chain : Type 1 where
  pub uint : Uint
  pub uint_bytes : UintBytes
  pub db : StateDb
  pub evm : Evm
  pub parse_ether : ℕ → ℕ → Bytes
  pub debug : db.Error → Bytes
  pub TransactionInner : Type 0
  pub tx_trait : TxTrait TransactionInner
  pub base_fee : BlockHeader → Option ℕ
  pub header_hash : BlockHeader → Hash
  pub add_su64 : ℕ → ℕ → ℕ
  pub gwei : ℕ
  pub create_bloom : Receipt → Bytes
  pub Block : Type 0
  pub block_new :
      BlockHeader → List TransactionInner → List Receipt → Option (List Withdrawal) → Block
  pub shanghai : evm.Config
  pub precompiles : evm.Precompiles

module _ (c : Chain) where
  abbrev pub header_trait : BlockHeaderTrait BlockHeader
  header_trait = record {
    base_fee = c.base_fee;
    number = λ b. b.number;
    gas_limit = λ b. b.gas_limit;
    timestamp = λ b. b.timestamp;
    miner = λ b. b.miner;
    set_state_root = λ root b. record b { state_root = root };
    set_gas_used = λ gas b. record b { gas_used = gas };
  }

  abbrev pub eth_host : Host
  eth_host = record {
    Tx = c.TransactionInner;
    Header = BlockHeader;
    tx_trait = c.tx_trait;
    header_trait = header_trait;
    uint = c.uint;
    uint_bytes = c.uint_bytes;
    db = c.db;
    evm = c.evm;
    parse_ether = c.parse_ether;
    debug = c.debug;
  }

  unfoldable pub new_block_header : Ethereum → BlockHeader → ConsensusBlockInfo → Option BlockHeader
  new_block_header self prev ctx =
      let gas_limit = calc_gas_limit prev.gas_limit ctx.gas_limit in
      elim (calc_base_fee c.uint prev.gas_limit prev.gas_used prev.base_fee_per_gas) [
        | none ↦ none
        | some base_fee ↦ some (record {
          parent_hash = c.header_hash prev;
          number = c.add_su64 prev.number 1;
          gas_limit = gas_limit;
          gas_used = 0;
          timestamp = ctx.timestamp;
          miner = ctx.coinbase;
          mix_hash = ctx.random;
          extra_data = ctx.extra;
          base_fee_per_gas = base_fee;
          difficulty = 0;
          state_root = 0;
        })
      ]

  unfoldable pub tx_context : Ethereum → TxContext eth_host → TxContext eth_host
  tx_context self ctx = record ctx {
    block_base_fee = ctx.header.base_fee_per_gas;
    miner = some ctx.header.miner;
  }

  -- `result.success as u64`
  abbrev status_of : Bool → ℕ
  status_of true = 1
  status_of false = 0

  -- The bloom is taken over the receipt with an empty one.
  unfoldable pub build_receipt :
      Ethereum → ℕ → ExecuteResult → ℕ → c.TransactionInner → BlockHeader → Receipt
  build_receipt self cumulative_gas_used result tx_idx tx header =
      let receipt : Receipt = record {
        status = status_of result.success;
        transaction_hash = c.tx_trait.hash tx;
        transaction_index = tx_idx;
        ty = some (c.tx_trait.ty tx);
        gas_used = result.used_gas;
        cumulative_gas_used = add_u64 cumulative_gas_used result.used_gas;
        logs = result.logs;
        logs_bloom = [];
        contract_address = none;
        root = none;
        block_hash = none;
        block_number = none;
      } in
      record receipt { logs_bloom = c.create_bloom receipt }

  abbrev pub on_state :
      {A : Type 0} → Action c.db.State c.db.Error A → Action (Ethereum × c.db.State) c.db.Error A
  on_state m (self, db) = ((m db).0, (self, (m db).1))

  unfoldable pub process_withdrawals :
      List Withdrawal → Action (Ethereum × c.db.State) c.db.Error (Unit {0})
  process_withdrawals [] = pure tt
  process_withdrawals (withdrawal ∷ withdrawals) =
      (or_panic (c.uint.mul withdrawal.amount c.gwei) >>= λ amount.
      on_state (c.db.add_balance withdrawal.address amount))
      >> process_withdrawals withdrawals

  unfoldable pub finalize_block :
      BlockHeader
      → List c.TransactionInner
      → List Receipt
      → Option (List Withdrawal)
      → Action (Ethereum × c.db.State) Bytes c.Block
  finalize_block header txs receipts withdrawals =
      pure (c.block_new header txs receipts withdrawals)

  abbrev pub ethereum : Engine eth_host
  ethereum = record {
    Self = Ethereum;
    Receipt = Receipt;
    Withdrawal = Withdrawal;
    Block = c.Block;
    NewBlockContext = ConsensusBlockInfo;
    gas_used = λ r. r.gas_used;
    signer = λ self. self.signer;
    evm_config = λ self. c.shanghai;
    precompile = λ self. c.precompiles;
    new_block_header = new_block_header;
    build_receipt = build_receipt;
    author = λ self header. ok (some header.miner);
    tx_context = tx_context;
    process_withdrawals = process_withdrawals;
    finalize_block = finalize_block;
  }
