-- ===== src/Precompile/Sets/Refines.antt =====
-- The set of the Scroll chain against the one of Berlin: it disables contracts and limits inputs,
-- and where it returns a result, so does the other, the same one at the same price.
use evm_executor_rs.Base.{
  ℕ, ◌≡◌, refl, ap, subst, ◌∙◌, Bool, true, false, Option, none, some, [], ◌∷◌, arith, ◌==◌,
  if◌then◌else◌, ok,
}
use evm_executor_rs.Base.Options.Results
use evm_executor_rs.Base.Options.Results.{unwrap}
use evm_executor_rs.External.Traits.{Address, Bytes}
use evm_executor_rs.External.Bn.{Bn}
use evm_executor_rs.Precompile.Contract.{Crates, PrecompiledContract, PrecompileOutput}
use evm_executor_rs.Precompile.Simple.{revert}
use evm_executor_rs.Precompile.ModExp.{
  PrecompileBigModExp, Lengths, padded, modexp_run, modexp_gas, modexp_checked, modexp_power, power,
  fill, read_lengths, big_mod_exp,
}
use evm_executor_rs.Precompile.Curve.{pair_run, pair_gas, pair_istanbul}
use evm_executor_rs.Precompile.Sets.{
  PrecompileSet, PrecompileHandle, get, berlin, scroll, Call, execute, run_precompiled_contract,
}
use evm_executor_rs.Precompile.Sets.Addresses.{run_parts}

-- Where `p` returns a result, `q` returns it too, at the same price.
pub record Refines (p q : PrecompiledContract) : Type 0 where
  pub same :
      (input : Bytes) (out : PrecompileOutput)
      → p.run input ≡ ok out
      → (q.run input ≡ ok out) × (q.required_gas input ≡ p.required_gas input)

Refines-refl : (p : PrecompiledContract) → Refines p p
Refines-refl p = record { same = λ input out e. (e, refl) }

revert-Refines : (q : PrecompiledContract) → Refines revert q
revert-Refines q = record { same = λ input out e. absurd (ground (arith, e)) }

-- Entry by entry.
abbrev SetRefines : PrecompileSet → PrecompileSet → Type 0
SetRefines [] [] = Unit
SetRefines [] ((k, q) ∷ g) = ⊥
SetRefines ((j, p) ∷ f) [] = ⊥
SetRefines ((j, p) ∷ f) ((k, q) ∷ g) = (j ≡ k) × Refines p q × SetRefines f g

get_step :
    {p q found : PrecompiledContract} (f g : Option PrecompiledContract) (t : Bool)
    → Refines p q
    → (f ≡ some found → (x : PrecompiledContract) × (g ≡ some x) × Refines found x)
    → (if t then some p else f) ≡ some found
    → (x : PrecompiledContract) × ((if t then some q else g) ≡ some x) × Refines found x
get_step {p} {q} {found} f g true r ih e =
    let s : p ≡ found = cc in (q, refl, subst (λ z. Refines z q) s r)
get_step f g false r ih e = ih e

get-Refines :
    (f g : PrecompileSet) (a : Address) {p : PrecompiledContract}
    → SetRefines f g
    → get f a ≡ some p
    → (q : PrecompiledContract) × (get g a ≡ some q) × Refines p q
unfolding get
get-Refines [] [] a r e = cc
get-Refines [] ((k, q) ∷ g) a r e = absurd r
get-Refines ((j, p) ∷ f) [] a r e = absurd r
get-Refines ((j, p) ∷ f) ((k, q) ∷ g) a {p = found} (same, r, rest) e =
    get_step (get f a) (get g a) (k == a) r (get-Refines f g a rest)
      (subst (λ z. (if z == a then some p else get f a) ≡ some found) same e)

module _ (c : Crates) where
  modexp_power_same :
      (s t : PrecompileBigModExp) (xs : Bytes) (l : Lengths)
      → modexp_power c s xs l ≡ modexp_power c t xs l
  unfolding modexp_power power fill
  modexp_power_same s t xs l = refl

  checked_limit :
      (input : Bytes) (l : Lengths) (limit : ℕ) (out : PrecompileOutput)
      → modexp_checked c (record { eip2565 = true; length_limit = some limit }) input l ≡ ok out
      → modexp_checked c (record { eip2565 = true; length_limit = none }) input l ≡ ok out
  unfolding modexp_checked
  checked_limit input l limit out e =
      let s : PrecompileBigModExp = record { eip2565 = true; length_limit = some limit } in
      let t : PrecompileBigModExp = record { eip2565 = true; length_limit = none } in
      ground (arith, e, modexp_power_same s t (padded input) l)

  run_limit :
      (input : Bytes) (o : Option Lengths) (limit : ℕ) (out : PrecompileOutput)
      → Results.◌>>=◌
          (unwrap o)
          (modexp_checked c (record { eip2565 = true; length_limit = some limit }) input)
        ≡ ok out
      → Results.◌>>=◌
          (unwrap o)
          (modexp_checked c (record { eip2565 = true; length_limit = none }) input)
        ≡ ok out
  run_limit input none limit out e = absurd (ground (arith, e))
  run_limit input (some l) limit out e = checked_limit input l limit out e

  modexp_limit :
      (limit : ℕ)
      → Refines
          (big_mod_exp c (record { eip2565 = true; length_limit = some limit }))
          (big_mod_exp c (record { eip2565 = true; length_limit = none }))
  unfolding modexp_gas modexp_run
  modexp_limit limit = record {
    same = λ input out e. (run_limit input (read_lengths c.uint_bytes input) limit out e, refl);
  }

  pair_limit :
      (bn : Bn) (limit : ℕ) → Refines (pair_istanbul bn (some limit)) (pair_istanbul bn none)
  unfolding pair_run pair_gas
  pair_limit bn limit = record { same = λ input out e. (ground (arith, e), refl) }

  scroll_refines_berlin : SetRefines (scroll c) (berlin c)
  unfolding scroll berlin
  scroll_refines_berlin =
      ((
        refl,
        Refines-refl _,
        (
          refl,
          revert-Refines _,
          (
            refl,
            revert-Refines _,
            (
              refl,
              Refines-refl _,
              (
                refl,
                modexp_limit 32,
                (
                  refl,
                  Refines-refl _,
                  (refl, Refines-refl _, (refl, pair_limit c.bn 4, (refl, revert-Refines _, tt))),
                ),
              ),
            ),
          ),
        ),
      ))

-- A result of the Scroll set is the Berlin set's, and the state behind the handle is the same.
module _ (c : Crates) (handle : PrecompileHandle) where
  run-Refines :
      (p q : PrecompiledContract) (s : handle.State) (out : PrecompileOutput)
      → Refines p q
      → (run_precompiled_contract handle p s).0 ≡ ok out
      → run_precompiled_contract handle q s ≡ run_precompiled_contract handle p s
  unfolding run_precompiled_contract
  run-Refines p q s out r e =
      let (gas, _, _, done, _) = run_parts handle p s out e in
      let (result, price) = r.same handle.input out done in rw (price, result, done) refl

  -- Where a contract of the Scroll set returns a result, the Berlin set has a contract at the
  -- address too, whose run is the same: the same result, and the same charge.
  pub scroll_refines :
      {call : Call handle PrecompileOutput} (s : handle.State) (out : PrecompileOutput)
      → execute handle (scroll c) ≡ some call
      → (call s).0 ≡ ok out
      → (other : Call handle PrecompileOutput) × (execute handle (berlin c) ≡ some other)
        × (other s ≡ call s)
  unfolding execute
  scroll_refines {call} s out e d = looked_up (get (scroll c) handle.code_address) refl e
    where
      looked_up :
          (o : Option PrecompiledContract)
          → get (scroll c) handle.code_address ≡ o
          → elim o as (λ _. Option (Call handle PrecompileOutput)) [
            | none ↦ none
            | some p ↦ some (run_precompiled_contract handle p)
          ]
            ≡ some call
          → (other : Call handle PrecompileOutput) × (execute handle (berlin c) ≡ some other)
            × (other s ≡ call s)
      looked_up none at d' = cc
      looked_up (some p) at d' =
          let (q, found, r) =
            get-Refines (scroll c) (berlin c) handle.code_address (scroll_refines_berlin c) at in
          let same : run_precompiled_contract handle p ≡ call = cc in
          (
            run_precompiled_contract handle q,
            rw (found, execute) refl,
            run-Refines p q s out r (ap (λ (k : Call handle PrecompileOutput). (k s).0) same ∙ d)
                ∙ ap (λ (k : Call handle PrecompileOutput). k s) same,
          )
