-- ===== src/BlockBuilder/Finish.antt =====
-- The methods of `BlockBuilder` that end a block: `flush_state`, `finalize_header`, `finalize` and
-- `withdrawal`.
use evm_executor_rs.Base.{some, List, Outcome, ok, err, panic, Action, ◌>>=◌, ◌>>◌}
use evm_executor_rs.External.Traits.{Hash, Bytes}
use evm_executor_rs.External.Host.{Host}
use evm_executor_rs.BlockBuilder.Engine.{Engine}
use evm_executor_rs.BlockBuilder.Builder.{BlockBuilder}

module _ (h : Host) (e : Engine h) where
  -- An action on the builder that fails with an error of its own.
  abbrev pub Finish : Type 0 → Type 0 → Type 0
  Finish E A = Action (BlockBuilder h e) E A

  unfoldable pub flush_state : Finish h.db.Error Hash
  flush_state b = let r = h.db.flush b.statedb in (r.0, record b { statedb = r.1 })

  -- `map_err(debug)`
  abbrev debug_error : {A : Type 0} → Outcome h.db.Error A → Outcome Bytes A
  debug_error (ok a) = ok a
  debug_error (err x) = err (h.debug x)
  debug_error panic = panic

  abbrev flush_debug : Finish Bytes Hash
  unfolding flush_state
  flush_debug b = (debug_error (flush_state b).0, (flush_state b).1)

  -- `header.set_state_root(..)` and `header.set_gas_used(..)`; the new header is returned.
  abbrev seal_header : Hash → Finish Bytes h.Header
  seal_header state_root b =
      let header =
        h.header_trait.set_gas_used b.cumulative_gas_used
          (h.header_trait.set_state_root state_root b.header) in
      (ok header, record b { header = header })

  unfoldable pub finalize_header : Finish Bytes h.Header
  unfolding flush_state
  finalize_header = flush_debug >>= λ state_root. seal_header state_root

  -- The engine's part of an action, on the engine and the database of the builder.
  abbrev on_engine : {E A : Type 0} → Action (e.Self × h.db.State) E A → Finish E A
  on_engine m b =
      let r = m (b.engine, b.statedb) in (r.0, record b { engine = r.1.0; statedb = r.1.1 })

  abbrev get_builder : Finish Bytes (BlockBuilder h e)
  get_builder b = (ok b, b)

  unfoldable pub finalize : Finish Bytes e.Block
  finalize = do
    header ← finalize_header
    b ← get_builder
    on_engine (e.finalize_block header b.txs b.receipts b.withdrawals)

  abbrev keep_withdrawals : List e.Withdrawal → Finish h.db.Error (Unit {0})
  keep_withdrawals withdrawals b = (ok tt, record b { withdrawals = some withdrawals })

  unfoldable pub withdrawal : List e.Withdrawal → Finish h.db.Error (Unit {0})
  withdrawal withdrawals =
      on_engine (e.process_withdrawals withdrawals) >> keep_withdrawals withdrawals
