-- ===== src/TxExecutor/Machine.antt =====
-- The struct `TxExecutor`, and the actions that its methods are: what a method wrote before an
-- error stays written. The fields that no method writes, `ctx` and `gas_price`, stand apart from
-- those that are the state.
use evm_executor_rs.Base.{ℕ, Option, none, some, Outcome, ok, err, panic, Action}
use evm_executor_rs.External.Host.{Host}
use evm_executor_rs.Types.{ExecuteError, state_error, TxContext}

pub record TxExecutor (h : Host) : Type 0 where
  pub ctx : TxContext h
  pub gas_price : ℕ

pub record Vars (h : Host) : Type 0 where
  pub state_db : h.db.State
  pub initial_gas : ℕ
  pub gas : ℕ

abbrev pub Exec : Host → Type 0 → Type 0
Exec h A = Action (Vars h) (ExecuteError h.db.Error) A

-- `unwrap_or_default` of an amount
abbrev pub or_zero : Option ℕ → ℕ
or_zero none = 0
or_zero (some n) = n

abbrev pub map_err : {E A : Type 0} → Outcome E A → Outcome (ExecuteError E) A
map_err (ok a) = ok a
map_err (err e) = err (state_error e)
map_err panic = panic

module _ (h : Host) where
  abbrev pub get_vars : Exec h (Vars h)
  get_vars vars = (ok vars, vars)

  -- A method of the database, its error made an `ExecuteError::StateError`.
  abbrev pub on_db : {A : Type 0} → Action h.db.State h.db.Error A → Exec h A
  on_db m vars = (map_err (m vars.state_db).0, record vars { state_db = (m vars.state_db).1 })

  -- An action of the backend, whose errors are the executor's already.
  abbrev pub on_proxy : {A : Type 0} → Action h.db.State (ExecuteError h.db.Error) A → Exec h A
  on_proxy m vars = ((m vars.state_db).0, record vars { state_db = (m vars.state_db).1 })

  -- `TxExecutor::new`
  unfoldable pub new : TxContext h → h.db.State → TxExecutor h × Vars h
  new ctx state_db = (
    record {
      ctx = ctx;
      gas_price = h.tx_trait.gas_price ctx.tx (h.header_trait.base_fee ctx.header);
    },
    record { state_db = state_db; initial_gas = 0; gas = 0 },
  )
