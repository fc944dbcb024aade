-- ===== src/Precompile/Sets/Addresses.antt =====
-- Which addresses have a contract, and what a run of one does to the state behind the handle.
use evm_executor_rs.Base.{
  ℕ, ◌≤◌, ◌≡◌, ◌↔◌, refl, Bool, true, false, Option, none, some, [], ◌∷◌, arith, Outcome, ok, err,
  panic, or_panic, after, ◌⊎◌, inl, inr, ◌>>=◌, ◌>>◌,
}
use evm_executor_rs.External.Traits.{Address}
use evm_executor_rs.Precompile.Contract.{
  Crates, PrecompiledContract, PrecompileFailure, PrecompileResult, PrecompileOutput,
}
use evm_executor_rs.Precompile.Sets.{
  PrecompileSet, PrecompileHandle, get, is_precompile, berlin, scroll, Call, just, execute,
  run_precompiled_contract,
}

get-is_precompile :
    (fns : PrecompileSet) (a : Address) → (get fns a ≡ none) ↔ (is_precompile fns a ≡ false)
unfolding get is_precompile
get-is_precompile [] a = ground arith
get-is_precompile ((key, p) ∷ fns) a = ground (arith, get-is_precompile fns a)

is_precompile-berlin :
    (c : Crates) (a : Address) → (is_precompile (berlin c) a ≡ true) ↔ ((1 ≤ a) × (a ≤ 9))
unfolding is_precompile berlin
is_precompile-berlin c a = ground arith

is_precompile-scroll :
    (c : Crates) (a : Address) → (is_precompile (scroll c) a ≡ true) ↔ ((1 ≤ a) × (a ≤ 9))
unfolding is_precompile scroll
is_precompile-scroll c a = ground arith

-- The two sets have contracts at the addresses 1 to 9, whether they run or not, and a call of any
-- other address is not theirs.
pub sets_at_one_to_nine :
    (c : Crates) (handle : PrecompileHandle) (fns : PrecompileSet)
    → (fns ≡ berlin c) ⊎ (fns ≡ scroll c)
    → ((is_precompile fns handle.code_address ≡ true)
        ↔ ((1 ≤ handle.code_address) × (handle.code_address ≤ 9)))
      × ((execute handle fns ≡ none) ↔ (is_precompile fns handle.code_address ≡ false))
unfolding execute
sets_at_one_to_nine c handle fns which =
    (at which, executes (get fns handle.code_address) (get-is_precompile fns handle.code_address))
  where
    at :
        (fns ≡ berlin c) ⊎ (fns ≡ scroll c)
        → (is_precompile fns handle.code_address ≡ true)
          ↔ ((1 ≤ handle.code_address) × (handle.code_address ≤ 9))
    at (inl e) = rw e (is_precompile-berlin c handle.code_address)
    at (inr e) = rw e (is_precompile-scroll c handle.code_address)

    executes :
        (o : Option PrecompiledContract) {b : Bool}
        → (o ≡ none) ↔ (b ≡ false)
        → (elim o as (λ _. Option (Call handle PrecompileOutput)) [
          | none ↦ none
          | some p ↦ some (run_precompiled_contract handle p)
        ]
            ≡ none)
          ↔ (b ≡ false)
    executes none (f, g) = (λ _. f refl, λ _. refl)
    executes (some p) (f, g) = (λ e. absurd (cc), λ e. absurd (cc (g e)))

module _ (handle : PrecompileHandle) where
  after_charge :
      (r : Outcome PrecompileFailure (Unit {0})) (t : handle.State) (result : PrecompileResult)
      (out : PrecompileOutput)
      → (after (λ _. just handle result) r t).0 ≡ ok out
      → (r ≡ ok tt) × (result ≡ ok out) × ((after (λ _. just handle result) r t).1 ≡ t)
  after_charge (ok tt) t result out e = (refl, e, refl)
  after_charge (err x) t result out e = absurd (ground (arith, e))
  after_charge panic t result out e = absurd (ground (arith, e))

  charged_run :
      (o : Option ℕ) (result : PrecompileResult) (s : handle.State) (out : PrecompileOutput)
      → let run = or_panic o >>= λ gas. handle.record_cost gas >> just handle result in
        (run s).0 ≡ ok out
        → (gas : ℕ) × (o ≡ some gas)
          × ((handle.record_cost gas s).0 ≡ ok tt)
          × (result ≡ ok out)
          × ((run s).1 ≡ (handle.record_cost gas s).1)
  charged_run none result s out e = absurd (ground (arith, e))
  charged_run (some gas) result s out e =
      let (r, d, t) =
        after_charge (handle.record_cost gas s).0 (handle.record_cost gas s).1 result out e in
      (gas, refl, r, d, t)

  -- A contract that returns a result has been charged for: its price was computed and accepted, and
  -- the state behind the handle is the one after the charge.
  pub run_parts :
      (p : PrecompiledContract) (s : handle.State) (out : PrecompileOutput)
      → (run_precompiled_contract handle p s).0 ≡ ok out
      → (gas : ℕ) × (p.required_gas handle.input ≡ some gas)
        × ((handle.record_cost gas s).0 ≡ ok tt)
        × (p.run handle.input ≡ ok out)
        × ((run_precompiled_contract handle p s).1 ≡ (handle.record_cost gas s).1)
  unfolding run_precompiled_contract
  run_parts p s out e = charged_run (p.required_gas handle.input) (p.run handle.input) s out e
