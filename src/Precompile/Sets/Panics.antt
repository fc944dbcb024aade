-- ===== src/Precompile/Sets/Panics.antt =====
-- Which addresses of the two sets have contracts whose price or run can panic.
use evm_executor_rs.Base.{
  ℕ, ◌≤◌, ◌≡◌, ◌≢◌, refl, ap, subst, ◌∙◌, ◌⊎◌, Bool-cases, inl, inr, Option, none, some, [], ◌∷◌,
  arith, ◌==◌, ==_iff, Outcome, ok, err, panic, after,
}
use evm_executor_rs.Base.Bytes.{All, IsByte}
use evm_executor_rs.External.Traits.{Address}
use evm_executor_rs.External.Hashes.{HashesLaws}
use evm_executor_rs.External.Bn.{BnLaws}
use evm_executor_rs.Precompile.Contract.{
  Crates, PrecompiledContract, PrecompileFailure, PrecompileOutput, PrecompileResult,
}
use evm_executor_rs.Precompile.Sets.{
  PrecompileSet, PrecompileHandle, get, berlin, scroll, Call, just, execute,
  run_precompiled_contract,
}
use evm_executor_rs.Precompile.Sets.Safe.{
  IsSafe, revert-IsSafe, data_copy-IsSafe, blake2f-IsSafe, sha256_hash-IsSafe,
  ripemd160_hash-IsSafe, pair_istanbul-IsSafe, ecrecover-IsSafe,
}

-- The addresses of the modular exponentiation, the addition and the multiplication.
abbrev pub MayPanic : Address → Type 0
MayPanic a = (5 ≤ a) × (a ≤ 7)

-- Entry by entry.
abbrev AreSafe : PrecompileSet → Type 0
AreSafe [] = Unit
AreSafe ((a, p) ∷ fns) = (IsSafe p ⊎ MayPanic a) × AreSafe fns

get-IsSafe :
    (fns : PrecompileSet) (a : Address) {p : PrecompiledContract}
    → AreSafe fns
    → get fns a ≡ some p
    → IsSafe p ⊎ MayPanic a
unfolding get
get-IsSafe [] a h e = cc
get-IsSafe ((key, q) ∷ fns) a {p = p} (h, rest) e = elim (Bool-cases (key == a)) [
  | inl same ↦
      let at : key ≡ a = (==_iff key a).0 same in
      let found : q ≡ p = cc in
      elim h [ inl safe ↦ inl (subst IsSafe found safe) | inr may ↦ inr (subst MayPanic at may) ]
  | inr other ↦ get-IsSafe fns a rest (cc)
]

module _ (c : Crates) where
  module _ (hashes : HashesLaws c.hashes) (bn : BnLaws c.bn) where
    berlin-AreSafe : AreSafe (berlin c)
    unfolding berlin
    berlin-AreSafe = (
      inl (ecrecover-IsSafe c),
      (
        inl (sha256_hash-IsSafe c.hashes),
        (
          inl (ripemd160_hash-IsSafe c.hashes hashes),
          (
            inl data_copy-IsSafe,
            (
              inr (omega arith, omega arith),
              (
                inr (omega arith, omega arith),
                (
                  inr (omega arith, omega arith),
                  (inl (pair_istanbul-IsSafe c.bn bn none), (inl blake2f-IsSafe, tt)),
                ),
              ),
            ),
          ),
        ),
      ),
    )

    scroll-AreSafe : AreSafe (scroll c)
    unfolding scroll
    scroll-AreSafe = (
      inl (ecrecover-IsSafe c),
      (
        inl revert-IsSafe,
        (
          inl revert-IsSafe,
          (
            inl data_copy-IsSafe,
            (
              inr (omega arith, omega arith),
              (
                inr (omega arith, omega arith),
                (
                  inr (omega arith, omega arith),
                  (inl (pair_istanbul-IsSafe c.bn bn (some 4)), (inl revert-IsSafe, tt)),
                ),
              ),
            ),
          ),
        ),
      ),
    )

    module _ (handle : PrecompileHandle) where
      run_panics :
          (p : PrecompiledContract) (s : handle.State)
          → IsSafe p
          → All IsByte handle.input
          → ((gas : ℕ) → (handle.record_cost gas s).0 ≢ panic)
          → (run_precompiled_contract handle p s).0 ≢ panic
      unfolding run_precompiled_contract
      run_panics p s safe bytes charge e =
          let (gas, priced) = safe.priced handle.input bytes in
          charged (handle.record_cost gas s).0 (handle.record_cost gas s).1 (charge gas)
            (safe.runs handle.input bytes) (rw priced at e)
        where
          charged :
              {result : PrecompileResult} (r : Outcome PrecompileFailure (Unit {0}))
              (t : handle.State)
              → r ≢ panic
              → result ≢ panic
              → (after (λ _. just handle result) r t).0 ≢ panic
          charged (ok tt) t h k x = k x
          charged (err y) t h k x = ground (arith, x)
          charged panic t h k x = h refl

      -- A contract that was found.
      found_panics :
          (fns : PrecompileSet) (o : Option PrecompiledContract)
          {call : Call handle PrecompileOutput} (s : handle.State)
          → AreSafe fns
          → All IsByte handle.input
          → ((gas : ℕ) → (handle.record_cost gas s).0 ≢ panic)
          → get fns handle.code_address ≡ o
          → elim o as (λ _. Option (Call handle PrecompileOutput)) [
            | none ↦ none
            | some p ↦ some (run_precompiled_contract handle p)
          ]
            ≡ some call
          → (call s).0 ≡ panic
          → MayPanic handle.code_address
      found_panics fns none s safe bytes charge at e d = absurd (cc)
      found_panics fns (some p) {call = call} s safe bytes charge at e d =
          elim (get-IsSafe fns handle.code_address safe at) [
            | inr may ↦ may
            | inl one ↦
                let same : run_precompiled_contract handle p ≡ call = cc in
                absurd (
                  run_panics p s one bytes charge
                    (ap (λ (k : Call handle PrecompileOutput). (k s).0) same ∙ d))
          ]

      both-AreSafe : (fns : PrecompileSet) → (fns ≡ berlin c) ⊎ (fns ≡ scroll c) → AreSafe fns
      both-AreSafe fns (inl e) = rw e berlin-AreSafe
      both-AreSafe fns (inr e) = rw e scroll-AreSafe

      -- Neither set panics on a call with bytes for an input, unless it is a call of the addresses 5
      -- to 7 or the charge of the gas panics.
      pub panics_between :
          (fns : PrecompileSet) {call : Call handle PrecompileOutput} (s : handle.State)
          → (fns ≡ berlin c) ⊎ (fns ≡ scroll c)
          → All IsByte handle.input
          → ((gas : ℕ) → (handle.record_cost gas s).0 ≢ panic)
          → execute handle fns ≡ some call
          → (call s).0 ≡ panic
          → (5 ≤ handle.code_address) × (handle.code_address ≤ 7)
      unfolding execute
      panics_between fns s which bytes charge e d =
          found_panics fns (get fns handle.code_address) s (both-AreSafe fns which) bytes charge
            refl e d
