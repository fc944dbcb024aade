-- ===== src/External/StateDb.antt =====
-- The trait `StateDB` of the crate `statedb`, and its laws: seen through `view`, a database is a
-- ledger of accounts that reading leaves alone and that each writing method changes in its way.
use evm_executor_rs.Base.{
  ℕ, ◌+◌, ◌-◌, ◌≤◌, ◌≡◌, Bool, Option, List, ok, Action, ◌==◌, if◌then◌else◌,
}
use evm_executor_rs.External.Traits.{Address, Hash, Bytes}

-- `statedb::MissingState`
pub record MissingState : Type 0 where
  pub account : Bool
  pub code : Bool
  pub storages : List Hash

pub record StateDb : Type 1 where
  pub State : Type 0
  pub Error : Type 0
  pub FetchStateResult : Type 0
  pub get_nonce : Address → Action State Error ℕ
  pub try_get_nonce : Address → State → Option ℕ × State
  pub get_balance : Address → Action State Error ℕ
  pub get_account_basic : Address → Action State Error (ℕ × ℕ)
  pub get_code : Address → Action State Error Bytes
  pub exist : Address → Action State Error Bool
  pub get_state : Address → Hash → Action State Error Hash
  pub add_balance : Address → ℕ → Action State Error (Unit {0})
  pub sub_balance : Address → ℕ → Action State Error (Unit {0})
  pub set_balance : Address → ℕ → Action State Error (Unit {0})
  pub set_nonce : Address → ℕ → Action State Error (Unit {0})
  pub set_code : Address → Bytes → Action State Error (Unit {0})
  pub set_state : Address → Hash → Hash → Action State Error (Unit {0})
  pub suicide : Address → Action State Error (Unit {0})
  pub flush : Action State Error Hash
  pub revert : Hash → State → State
  pub check_missing_state : Address → List Hash → Action State Error MissingState
  pub apply_states : List FetchStateResult → Action State Error (Unit {0})

-- What a database holds of each account.
pub record Ledger : Type 0 where
  pub balance : Address → ℕ
  pub nonce : Address → ℕ
  pub code : Address → Bytes
  pub storage : Address → Hash → Hash

-- A function with one value changed.
abbrev pub update : {A : Type 0} → ℕ → A → (ℕ → A) → ℕ → A
update k v f x = if x == k then v else f x

abbrev pub put_balance : Address → ℕ → Ledger → Ledger
put_balance a v l = record l { balance = update a v l.balance }

abbrev pub credit : Address → ℕ → Ledger → Ledger
credit a v l = put_balance a (l.balance a + v) l

abbrev pub debit : Address → ℕ → Ledger → Ledger
debit a v l = put_balance a (l.balance a - v) l

abbrev pub put_nonce : Address → ℕ → Ledger → Ledger
put_nonce a n l = record l { nonce = update a n l.nonce }

abbrev pub put_code : Address → Bytes → Ledger → Ledger
put_code a c l = record l { code = update a c l.code }

abbrev pub put_storage : Address → Hash → Hash → Ledger → Ledger
put_storage a i v l = record l { storage = update a (update i v (l.storage a)) l.storage }

abbrev pub erase : Address → Ledger → Ledger
erase a l = record {
  balance = update a 0 l.balance;
  nonce = update a 0 l.nonce;
  code = update a List.[] l.code;
  storage = update a (λ i. 0) l.storage;
}

-- Reading keeps the ledger, also when it fails; a value that is returned is the ledger's.
abbrev pub Reads : {S E A : Type 0} → (S → Ledger) → Action S E A → (Ledger → A) → Type 0
Reads {S} {E} {A} view m value =
    (s : S) → (view (m s).1 ≡ view s) × ((a : A) → (m s).0 ≡ ok a → a ≡ value (view s))

-- Writing that succeeds changes the ledger as stated.
abbrev pub Writes :
    {S E : Type 0} → (S → Ledger) → Action S E (Unit {0}) → (Ledger → Ledger) → Type 0
Writes {S} {E} view m change = (s : S) → (m s).0 ≡ ok tt → view (m s).1 ≡ change (view s)

pub record StateDbLaws (db : StateDb) : Type 0 where
  pub view : db.State → Ledger
  pub get_nonce-Reads : (a : Address) → Reads view (db.get_nonce a) (λ l. l.nonce a)
  pub get_balance-Reads : (a : Address) → Reads view (db.get_balance a) (λ l. l.balance a)
  pub get_account_basic-Reads :
      (a : Address) → Reads view (db.get_account_basic a) (λ l. (l.balance a, l.nonce a))
  pub get_code-Reads : (a : Address) → Reads view (db.get_code a) (λ l. l.code a)
  pub get_state-Reads :
      (a : Address) (i : Hash) → Reads view (db.get_state a i) (λ l. l.storage a i)
  pub exist-view : (a : Address) (s : db.State) → view (db.exist a s).1 ≡ view s
  pub try_get_nonce-view : (a : Address) (s : db.State) → view (db.try_get_nonce a s).1 ≡ view s
  pub add_balance-Writes : (a : Address) (v : ℕ) → Writes view (db.add_balance a v) (credit a v)
  pub sub_balance-Writes : (a : Address) (v : ℕ) → Writes view (db.sub_balance a v) (debit a v)
  pub sub_balance_covered :
      (a : Address) (v : ℕ) (s : db.State)
      → (db.sub_balance a v s).0 ≡ ok tt
      → v ≤ (view s).balance a
  pub set_balance-Writes :
      (a : Address) (v : ℕ) → Writes view (db.set_balance a v) (put_balance a v)
  pub set_nonce-Writes : (a : Address) (n : ℕ) → Writes view (db.set_nonce a n) (put_nonce a n)
  pub set_code-Writes : (a : Address) (c : Bytes) → Writes view (db.set_code a c) (put_code a c)
  pub set_state-Writes :
      (a : Address) (i v : Hash) → Writes view (db.set_state a i v) (put_storage a i v)
  pub suicide-Writes : (a : Address) → Writes view (db.suicide a) (erase a)
