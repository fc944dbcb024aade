-- ===== src/BlockBuilder/Prefetch.antt =====
-- `BlockBuilder::prefetch`: the state that a list of accesses misses is fetched in few requests.
use evm_executor_rs.Base.{
  ℕ, Bool, Option, none, some, List, [], ◌∷◌, ltb, if◌then◌else◌, Outcome, Action, pure, ◌>>=◌,
  ◌>>◌, length,
}
use evm_executor_rs.External.Traits.{Address, AccessTuple}
use evm_executor_rs.External.StateDb.{MissingState}
use evm_executor_rs.External.Host.{Host}
use evm_executor_rs.BlockBuilder.Engine.{Engine}
use evm_executor_rs.BlockBuilder.Builder.{BlockBuilder}

-- `eth_types::FetchState`
pub record FetchState : Type 0 where
  pub access_list : Option AccessTuple
  pub code : Option Address

-- The methods of `FetchState`, and the method of the trait `StatePrefetcher`.
pub record Fetching (h : Host) : Type 0 where
  pub get_addr : FetchState → Option Address
  pub is_match : FetchState → FetchState → Bool
  pub merge : FetchState → FetchState → FetchState
  pub prefetch : List FetchState → Outcome h.db.Error (List h.db.FetchStateResult)

-- What is fetched for an access, of the account's missing state.
unfoldable pub fetch_of : AccessTuple → MissingState → FetchState
fetch_of item missing_state =
    if missing_state.account
    then record { access_list = some item; code = some item.address }
    else record {
      access_list = some (record item { storage_keys = missing_state.storages });
      code = if missing_state.code then some item.address else none;
    }

module _ {h : Host} (f : Fetching h) where
  -- `match out.iter_mut().find(..)`: merged into the first match, or put at the end.
  unfoldable pub add_fetch : FetchState → List FetchState → List FetchState
  add_fetch fetch [] = fetch ∷ []
  add_fetch fetch (item ∷ out) =
      let rest = add_fetch fetch out in
      if f.is_match fetch item then f.merge item fetch ∷ out else item ∷ rest

  -- `if fetch.get_addr().is_some()`
  abbrev pub add_some : Option Address → FetchState → List FetchState → List FetchState
  add_some none fetch out = out
  add_some (some address) fetch out = add_fetch fetch out

  unfoldable pub add_missing : AccessTuple → MissingState → List FetchState → List FetchState
  unfolding fetch_of
  add_missing item missing_state out =
      let fetch = fetch_of item missing_state in add_some (f.get_addr fetch) fetch out

  -- The loop over the accesses.
  unfoldable pub collect :
      List AccessTuple → List FetchState → Action h.db.State h.db.Error (List FetchState)
  collect [] out = pure out
  collect (item ∷ items) out =
      h.db.check_missing_state item.address item.storage_keys >>= λ missing_state.
      collect items (add_missing item missing_state out)

  abbrev fetch_all : List FetchState → Action h.db.State h.db.Error (Unit {0})
  fetch_all out = (λ s. (f.prefetch out, s)) >>= λ result. h.db.apply_states result

  unfoldable pub prefetch_state : List AccessTuple → Action h.db.State h.db.Error ℕ
  prefetch_state items = do
    out ← collect items []
    if ltb 0 (length out) then fetch_all out else pure tt
    pure (length out)

module _ (h : Host) (e : Engine h) (f : Fetching h) where
  unfoldable pub prefetch : List AccessTuple → Action (BlockBuilder h e) h.db.Error ℕ
  unfolding prefetch_state
  prefetch items b = let r = prefetch_state f items b.statedb in (r.0, record b { statedb = r.1 })
