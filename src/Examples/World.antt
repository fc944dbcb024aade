-- ===== src/Examples/World.antt =====
-- A small world: checked arithmetic, a database that is a ledger, an interpreter that runs one kind
-- of code, and plain transactions and headers.
use evm_executor_rs.Base.{
  ℕ, ◌+◌, ◌-◌, ◌*◌, ◌/◌, ◌≤◌, ◌≡◌, refl, min, Bool, true, false, none, some, [], ◌∷◌, arith, ltb,
  leb, leb→le, Bool-cases, inl, inr, ◌==◌, if◌then◌else◌, ok, err, Action,
}
use evm_executor_rs.External.Traits.{Address, TxTrait}
use evm_executor_rs.External.Uint.{Uint, u256_mod}
use evm_executor_rs.External.Evm.{Evm, EvmLaws, Query, Session, finish, ask, modify, Transacted}
use evm_executor_rs.External.StateDb.{
  StateDb, StateDbLaws, Ledger, credit, debit, put_balance, put_nonce, put_code, put_storage, erase,
  Reads,
}
use evm_executor_rs.Examples.Words.{words}
use evm_executor_rs.Engines.Ethereum.{Chain, BlockHeader}

abbrev pub checked : Uint
checked = record {
  add = λ a b. if ltb (a + b) u256_mod then some (a + b) else none;
  sub = λ a b. if leb b a then some (a - b) else none;
  mul = λ a b. if ltb (a * b) u256_mod then some (a * b) else none;
  div = λ a b. if b == 0 then none else some (a / b);
  add_lem = λ a b. refl;
  sub_lem = λ a b. refl;
  mul_lem = λ a b. refl;
  div_lem = λ a b. refl;
}

abbrev pub reads : {A : Type 0} → (Ledger → A) → Action Ledger (Unit {0}) A
reads f l = (ok (f l), l)

abbrev writes : (Ledger → Ledger) → Action Ledger (Unit {0}) (Unit {0})
writes f l = (ok tt, f l)

abbrev pub ledger_db : StateDb
ledger_db = record {
  State = Ledger;
  Error = Unit {0};
  FetchStateResult = Unit {0};
  get_nonce = λ a. reads (λ l. l.nonce a);
  try_get_nonce = λ a l. (some (l.nonce a), l);
  get_balance = λ a. reads (λ l. l.balance a);
  get_account_basic = λ a. reads (λ l. (l.balance a, l.nonce a));
  get_code = λ a. reads (λ l. l.code a);
  exist = λ a. reads (λ l. true);
  get_state = λ a i. reads (λ l. l.storage a i);
  add_balance = λ a v. writes (credit a v);
  sub_balance = λ a v l. if leb v (l.balance a) then (ok tt, debit a v l) else (err tt, l);
  set_balance = λ a v. writes (put_balance a v);
  set_nonce = λ a n. writes (put_nonce a n);
  set_code = λ a c. writes (put_code a c);
  set_state = λ a i v. writes (put_storage a i v);
  suicide = λ a. writes (erase a);
  flush = reads (λ l. 7);
  revert = λ root l. l;
  check_missing_state =
      λ a keys. reads (λ l. record { account = false; code = false; storages = [] });
  apply_states = λ results. writes (λ l. l);
}

pub sub_writes :
    (a v : ℕ) (l : Ledger)
    → (ledger_db.sub_balance a v l).0 ≡ ok tt
    → (v ≤ l.balance a) × ((ledger_db.sub_balance a v l).1 ≡ debit a v l)
sub_writes a v l e = elim (Bool-cases (leb v (l.balance a))) [
  | inl covered ↦ (leb→le v (l.balance a) covered, rw covered)
  | inr short ↦ absurd (ground (arith, short, e))
]

pub reads-Reads : {A : Type 0} (f : Ledger → A) → Reads (λ l. l) (reads f) f
reads-Reads f l = (refl, λ a e. cc)

unfoldable pub ledger_db_laws : StateDbLaws ledger_db
ledger_db_laws = record {
  view = λ l. l;
  get_nonce-Reads = λ a. reads-Reads (λ l. l.nonce a);
  get_balance-Reads = λ a. reads-Reads (λ l. l.balance a);
  get_account_basic-Reads = λ a. reads-Reads (λ l. (l.balance a, l.nonce a));
  get_code-Reads = λ a. reads-Reads (λ l. l.code a);
  get_state-Reads = λ a i. reads-Reads (λ l. l.storage a i);
  exist-view = λ a s. refl;
  try_get_nonce-view = λ a s. refl;
  add_balance-Writes = λ a v s e. refl;
  sub_balance-Writes = λ a v s e. (sub_writes a v s e).1;
  sub_balance_covered = λ a v s e. (sub_writes a v s e).0;
  set_balance-Writes = λ a v s e. refl;
  set_nonce-Writes = λ a v s e. refl;
  set_code-Writes = λ a v s e. refl;
  set_state-Writes = λ a i v s e. refl;
  suicide-Writes = λ a s e. refl;
}

-- A run asks for the caller's balance, uses 5 gas, and increments the caller's nonce. A call of
-- account 0 fails.
abbrev pub run_of : Address → Bool → ℕ → Session Transacted
run_of caller success gas = ask (Query.basic caller) λ basic. finish (record {
  is_succeed = success;
  output = [];
  used_gas = min gas 5;
  refunded_gas = 0;
  applies =
      modify caller (record { balance = basic.balance; nonce = basic.nonce + 1 }) none [] false
      ∷ [];
  logs = [];
})

abbrev pub small_evm : Evm
small_evm = record {
  Config = Unit {0};
  Precompiles = Unit {0};
  transact_call = λ cfg pre caller to value input gas al. run_of caller (ltb 0 to) gas;
  transact_create = λ cfg pre caller value input gas al. run_of caller true gas;
}

pub small_evm_laws : EvmLaws small_evm
small_evm_laws = record {
  call_gas = λ cfg pre caller to value input gas al basic. omega arith;
  create_gas = λ cfg pre caller value input gas al basic. omega arith;
}

-- A transaction of account 1 with nonce 3, for 10 gas at 4 with a tip of 1, to an account.
pub record SmallTx : Type 0 where
  pub target : Address
  pub nonce : ℕ

abbrev pub small_tx : TxTrait SmallTx
small_tx = record {
  hash = λ t. 99;
  ty = λ t. 2;
  nonce = λ t. t.nonce;
  gas = λ t. 10;
  gas_limit = λ t. 10;
  gas_price = λ t base_fee. 4;
  max_fee_per_gas = λ t. 6;
  max_priority_fee_per_gas = λ t. 1;
  effective_gas_tip = λ t base_fee. some 1;
  to = λ t. some t.target;
  value = λ t. 0;
  input = λ t. [];
  access_list = λ t. none;
  sender = λ t signer. 1;
}

abbrev pub chain : Chain
chain = record {
  uint = checked;
  uint_bytes = words;
  db = ledger_db;
  evm = small_evm;
  parse_ether = λ v digits. [];
  debug = λ e. [];
  TransactionInner = SmallTx;
  tx_trait = small_tx;
  base_fee = λ b. some b.base_fee_per_gas;
  header_hash = λ b. 55;
  add_su64 = λ a b. a + b;
  gwei = 1000000000;
  create_bloom = λ r. [];
  Block = BlockHeader;
  block_new = λ header txs receipts withdrawals. header;
  shanghai = tt;
  precompiles = tt;
}

-- A block of base fee 3, mined by account 2.
abbrev pub header : BlockHeader
header = record {
  parent_hash = 0;
  number = 8;
  gas_limit = 30;
  gas_used = 0;
  timestamp = 0;
  miner = 2;
  mix_hash = 0;
  extra_data = [];
  base_fee_per_gas = 3;
  difficulty = 0;
  state_root = 0;
}

-- Each account has 100; account 1 is at nonce 3.
abbrev pub start : Ledger
start = record {
  balance = λ a. 100;
  nonce = λ a. if a == 1 then 3 else 0;
  code = λ a. [];
  storage = λ a i. 0;
}
