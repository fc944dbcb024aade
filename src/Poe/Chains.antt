-- ===== src/Poe/Chains.antt =====
-- The loop of `Poe::batch`, which checks that each proof starts where the one before it ends.
use evm_executor_rs.Base.{
  ℕ, ◌+◌, ◌≡◌, refl, ap, subst, ◌∙◌, some, List, [], ◌∷◌, ◌++◌, arith, length, Outcome, ok, err,
  panic, after,
}
use evm_executor_rs.External.Traits.{Hash}
use evm_executor_rs.Poe.{Poe, Roots, BatchError, unexpected_state_root, chain_poe, chain_poes}

-- Each proof starts from the state root that the one before it ends with.
abbrev pub IsChain : Poe → List Poe → Type 0
IsChain p [] = Unit
IsChain p (q ∷ qs) = (p.new_state_root ≡ q.prev_state_root) × IsChain q qs

abbrev pub last_of : Poe → List Poe → Poe
last_of p [] = p
last_of p (q ∷ qs) = last_of q qs

-- The variables of the loop behind a proof.
abbrev pub roots_of : Hash → Poe → Roots
roots_of first p = record {
  prev_state_root = some first;
  new_state_root = some p.new_state_root;
  withdrawal_root = some p.withdrawal_root;
}

module _ (first : Hash) where
  pub chain_poe_linked :
      (idx : ℕ) (p q : Poe)
      → p.new_state_root ≡ q.prev_state_root
      → chain_poe idx q (roots_of first p) ≡ (ok tt, roots_of first q)
  unfolding chain_poe
  chain_poe_linked idx p q e = ground (arith, e)

  chain_poe_ok :
      (idx : ℕ) (p q : Poe)
      → (chain_poe idx q (roots_of first p)).0 ≡ ok tt
      → p.new_state_root ≡ q.prev_state_root
  unfolding chain_poe
  chain_poe_ok idx p q e = ground (arith, e)

  pub chain_poes_linked :
      (idx : ℕ) (p : Poe) (ps : List Poe)
      → IsChain p ps
      → chain_poes idx ps (roots_of first p) ≡ (ok tt, roots_of first (last_of p ps))
  unfolding chain_poes
  chain_poes_linked idx p [] l = refl
  chain_poes_linked idx p (q ∷ qs) (e, l) =
      rw (chain_poe_linked idx p q e) (chain_poes_linked (idx + 1) q qs l)

  after_linked :
      (idx : ℕ) (ps : List Poe) (r : Outcome BatchError (Unit {0})) (t : Roots)
      → (after (λ _. chain_poes idx ps) r t).0 ≡ ok tt
      → r ≡ ok tt
  after_linked idx ps (ok tt) t e = refl
  after_linked idx ps (err x) t e = absurd (ground (arith, e))
  after_linked idx ps panic t e = absurd (ground (arith, e))

  pub chain_poes_ok :
      (idx : ℕ) (p : Poe) (ps : List Poe)
      → (chain_poes idx ps (roots_of first p)).0 ≡ ok tt
      → IsChain p ps
  unfolding chain_poes
  chain_poes_ok idx p [] e = tt
  chain_poes_ok idx p (q ∷ qs) e =
      let step = chain_poe idx q (roots_of first p) in
      let linked = chain_poe_ok idx p q (after_linked (idx + 1) qs step.0 step.1 e) in
      (
        linked,
        chain_poes_ok (idx + 1) q qs (
            subst
              (λ (o : Outcome BatchError (Unit {0}) × Roots).
                (after (λ _. chain_poes (idx + 1) qs) o.0 o.1).0 ≡ ok tt)
              (chain_poe_linked idx p q linked) e),
      )

  chain_poe_broken :
      (idx : ℕ) (p q : Poe)
      → (p.new_state_root ≡ q.prev_state_root → ⊥)
      → (chain_poe idx q (roots_of first p)).0
        ≡ err (unexpected_state_root idx p.new_state_root q.prev_state_root)
  unfolding chain_poe
  chain_poe_broken idx p q n = ground (arith, n)

  after_broken :
      (idx : ℕ) (ps : List Poe) (r : Outcome BatchError (Unit {0})) (t : Roots) (x : BatchError)
      → r ≡ err x
      → (after (λ _. chain_poes idx ps) r t).0 ≡ err x
  after_broken idx ps r t x e = rw e refl

  pub chain_poes_broken :
      (idx : ℕ) (p : Poe) (ps : List Poe) (q : Poe) (qs : List Poe)
      → IsChain p ps
      → ((last_of p ps).new_state_root ≡ q.prev_state_root → ⊥)
      → (chain_poes idx (ps ++ q ∷ qs) (roots_of first p)).0
        ≡ err (
            unexpected_state_root (idx + length ps) (last_of p ps).new_state_root q.prev_state_root)
  unfolding chain_poes
  chain_poes_broken idx p [] q qs l n =
      let step = chain_poe idx q (roots_of first p) in
      after_broken (idx + 1) qs step.0 step.1 _ (chain_poe_broken idx p q n)
      ∙ ap (λ i. err (unexpected_state_root i p.new_state_root q.prev_state_root)) (omega arith)
  chain_poes_broken idx p (x ∷ ps) q qs (e, l) n = rw (chain_poe_linked idx p x e) (
      chain_poes_broken (idx + 1) x ps q qs l n
      ∙ ap (λ i. err (unexpected_state_root i (last_of x ps).new_state_root q.prev_state_root))
          (omega arith))
