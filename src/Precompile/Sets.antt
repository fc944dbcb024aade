-- ===== src/Precompile/Sets.antt =====
-- `PrecompileSet` of src/precompile.rs: the sets of two chains, looking a contract up and running it.
pub mod Refines
pub mod Addresses
pub mod Safe
pub mod Panics
use evm_executor_rs.Base.{
  ℕ, Bool, true, false, Option, none, some, List, [], ◌∷◌, map, ltb, ◌==◌, if◌then◌else◌, Action,
  Outcome, ok, err, panic, or_panic, ◌>>=◌, ◌>>◌,
}
use evm_executor_rs.External.Traits.{Address, Bytes}
use evm_executor_rs.Precompile.Contract.{
  Crates, PrecompiledContract, PrecompileFailure, PrecompileOutput, PrecompileResult,
}
use evm_executor_rs.Precompile.Simple.{
  unimplemented, revert, data_copy, sha256_hash, ripemd160_hash,
}
use evm_executor_rs.Precompile.Blake2fContract.{blake2f}
use evm_executor_rs.Precompile.ModExp.{PrecompileBigModExp, big_mod_exp}
use evm_executor_rs.Precompile.Ecrecover.{ecrecover}
use evm_executor_rs.Precompile.Curve.{add_istanbul, mul_istanbul, pair_istanbul}

-- A `BTreeMap` from addresses, the list of its entries by increasing keys.
abbrev pub PrecompileSet : Type 0
PrecompileSet = List (Address × PrecompiledContract)

-- `PrecompileSet::add`, an insertion that replaces.
unfoldable pub add : Address → PrecompiledContract → PrecompileSet → PrecompileSet
add idx p [] = (idx, p) ∷ []
add idx p ((key, q) ∷ fns) =
    let rest = add idx p fns in
    if ltb idx key
    then (idx, p) ∷ (key, q) ∷ fns
    else if idx == key
    then (idx, p) ∷ fns
    else (key, q) ∷ rest

unfoldable pub get : PrecompileSet → Address → Option PrecompiledContract
get [] address = none
get ((key, p) ∷ fns) address = let rest = get fns address in if key == address then some p else rest

unfoldable pub get_addresses : PrecompileSet → List Address
get_addresses [] = []
get_addresses ((key, p) ∷ fns) = key ∷ get_addresses fns

-- `contains_key`; the extra cost is 0.
unfoldable pub is_precompile : PrecompileSet → Address → Bool
is_precompile [] address = false
is_precompile ((key, p) ∷ fns) address =
    let rest = is_precompile fns address in if key == address then true else rest

-- `for i in 1..=9 { def.add(i, PrecompileUnimplemented { addr: i }); }`
abbrev nine_unimplemented : PrecompileSet
unfolding add
nine_unimplemented = add 9 unimplemented (
    add 8 unimplemented (
      add 7 unimplemented (
        add 6 unimplemented (
          add 5 unimplemented (
            add 4 unimplemented
              (add 3 unimplemented (add 2 unimplemented (add 1 unimplemented []))))))))

module _ (c : Crates) where
  unfoldable pub berlin : PrecompileSet
  unfolding add
  berlin =
      let def = nine_unimplemented in
      let def = add 1 (ecrecover c) def in
      let def = add 2 (sha256_hash c.hashes) def in
      let def = add 3 (ripemd160_hash c.hashes) def in
      let def = add 4 data_copy def in
      let def = add 5 (big_mod_exp c (record { eip2565 = true; length_limit = none })) def in
      let def = add 6 (add_istanbul c.bn) def in
      let def = add 7 (mul_istanbul c.bn) def in
      let def = add 8 (pair_istanbul c.bn none) def in add 9 blake2f def

  unfoldable pub scroll : PrecompileSet
  unfolding add
  scroll =
      let def = nine_unimplemented in
      let def = add 1 (ecrecover c) def in
      let def = add 2 revert def in
      let def = add 3 revert def in
      let def = add 4 data_copy def in
      let def = add 5 (big_mod_exp c (record { eip2565 = true; length_limit = some 32 })) def in
      let def = add 6 (add_istanbul c.bn) def in
      let def = add 7 (mul_istanbul c.bn) def in
      let def = add 8 (pair_istanbul c.bn (some 4)) def in add 9 revert def

-- `PrecompileHandle`, what is used of it: the address and the input of the call, and the charge of
-- gas, which may fail.
pub record PrecompileHandle : Type 1 where
  pub State : Type 0
  pub code_address : Address
  pub input : Bytes
  pub record_cost : ℕ → Action State PrecompileFailure (Unit {0})

module _ (handle : PrecompileHandle) where
  abbrev pub Call : Type 0 → Type 0
  Call A = Action handle.State PrecompileFailure A

  abbrev pub just : {A : Type 0} → Outcome PrecompileFailure A → Call A
  just r s = (r, s)

  unfoldable pub run_precompiled_contract : PrecompiledContract → Call PrecompileOutput
  run_precompiled_contract p = do
    gas_cost ← or_panic (p.required_gas handle.input)
    handle.record_cost gas_cost
    just (p.run handle.input)

  -- `none`: the address has no contract.
  unfoldable pub execute : PrecompileSet → Option (Call PrecompileOutput)
  execute fns = elim (get fns handle.code_address) [
    | none ↦ none
    | some p ↦ some (run_precompiled_contract p)
  ]
