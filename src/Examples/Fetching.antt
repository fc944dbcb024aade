-- ===== src/Examples/Fetching.antt =====
-- Requests for missing state in the small world: they match when they are for the same account.
use evm_executor_rs.Base.{
  ◌≡◌, refl, ◌↔◌, Bool, true, false, Option, none, some, [], ◌∷◌, ◌++◌, arith, ok, ◌==◌,
}
use evm_executor_rs.External.Traits.{Address, AccessTuple}
use evm_executor_rs.External.Host.{Host}
use evm_executor_rs.BlockBuilder.Prefetch.{
  FetchState, Fetching, fetch_of, add_fetch, add_missing, collect,
}
use evm_executor_rs.BlockBuilder.Laws.Prefetch.{FetchingLaws, IsDistinct, collect-IsDistinct}
use evm_executor_rs.Engines.Ethereum.{eth_host}
use evm_executor_rs.Examples.World.{chain, start}

abbrev host : Host
host = eth_host chain

abbrev addr_of : Option AccessTuple → Option Address → Option Address
addr_of none code = code
addr_of (some item) code = some item.address

abbrev same_addr : Option Address → Option Address → Bool
same_addr none none = true
same_addr none (some b) = false
same_addr (some a) none = false
same_addr (some a) (some b) = a == b

abbrev joined_lists : Option AccessTuple → Option AccessTuple → Option AccessTuple
joined_lists none other = none
joined_lists (some item) none = some item
joined_lists (some item) (some more) =
    some (record item { storage_keys = item.storage_keys ++ more.storage_keys })

abbrev fetching : Fetching host
fetching = record {
  get_addr = λ x. addr_of x.access_list x.code;
  is_match = λ x y. same_addr (addr_of x.access_list x.code) (addr_of y.access_list y.code);
  merge = λ x y. record x { access_list = joined_lists x.access_list y.access_list };
  prefetch = λ out. ok [];
}

same_addr_iff : (x y : Option Address) → (same_addr x y ≡ true) ↔ (x ≡ y)
same_addr_iff none none = (λ e. refl, λ e. refl)
same_addr_iff none (some b) = ground arith
same_addr_iff (some a) none = ground arith
same_addr_iff (some a) (some b) = ground arith

addr_of-joined :
    (l m : Option AccessTuple) (code : Option Address)
    → addr_of (joined_lists l m) code ≡ addr_of l code
addr_of-joined none m code = refl
addr_of-joined (some item) none code = refl
addr_of-joined (some item) (some more) code = refl

fetching_laws : FetchingLaws fetching
fetching_laws = record {
  is_match-iff = λ x y. same_addr_iff (addr_of x.access_list x.code) (addr_of y.access_list y.code);
  get_addr-merge = λ x y. addr_of-joined x.access_list y.access_list x.code;
}

abbrev access : Address → AccessTuple
access a = record { address = a; storage_keys = 5 ∷ [] }

abbrev request : Address → FetchState
request a = record { access_list = some (record { address = a; storage_keys = [] }); code = none }

collected :
    (collect fetching (access 1 ∷ access 2 ∷ access 1 ∷ []) [] start).0
    ≡ ok (request 1 ∷ request 2 ∷ [])
unfolding collect add_missing fetch_of add_fetch
collected = refl

collect-IsDistinct_example : IsDistinct fetching (request 1 ∷ request 2 ∷ [])
collect-IsDistinct_example =
    collect-IsDistinct fetching fetching_laws (access 1 ∷ access 2 ∷ access 1 ∷ []) start collected
