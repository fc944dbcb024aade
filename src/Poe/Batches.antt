-- ===== src/Poe/Batches.antt =====
-- `Poe::batch`: it composes the proofs of a chain of state roots, and nothing else.
use evm_executor_rs.Base.{
  ◌+◌, ◌≡◌, refl, ap, sym, ◌∙◌, ◌↔◌, List, ◌∷◌, ◌++◌, map, arith, length, Outcome, ok, err, panic,
  Action, after,
}
use evm_executor_rs.External.Traits.{Hash}
use evm_executor_rs.External.Crypto.{Crypto}
use evm_executor_rs.Poe.{
  Poe, Roots, BatchError, unexpected_state_root, no_signature, chain_poe, chain_poes, compose,
  no_roots, batch,
}
use evm_executor_rs.Poe.Chains.{
  IsChain, last_of, roots_of, chain_poes_linked, chain_poes_ok, chain_poes_broken,
}

module _ (c : Crypto) where
  -- The proof for a whole chain: from the first root to the last, with the hash of all the hashes.
  abbrev pub composed : Hash → Poe → List Poe → Poe
  composed batch_hash p ps = record {
    batch_hash = batch_hash;
    state_hash = c.keccak_encode (map (λ poe. c.hash_bytes poe.state_hash) (p ∷ ps));
    prev_state_root = p.prev_state_root;
    new_state_root = (last_of p ps).new_state_root;
    withdrawal_root = (last_of p ps).withdrawal_root;
    signature = no_signature;
  }

  batch_cons :
      (batch_hash : Hash) (p : Poe) (ps : List Poe)
      → batch c batch_hash (p ∷ ps) ≡ (compose c batch_hash (p ∷ ps) no_roots).0
  unfolding batch
  batch_cons batch_hash p ps = ground arith

  compose_chain :
      (batch_hash : Hash) (p : Poe) (ps : List Poe)
      → IsChain p ps
      → (compose c batch_hash (p ∷ ps) no_roots).0 ≡ ok (composed batch_hash p ps)
  unfolding compose chain_poes chain_poe
  compose_chain batch_hash p ps l = rw (chain_poes_linked p.prev_state_root 1 p ps l) refl

  pub batch_chain :
      (batch_hash : Hash) (p : Poe) (ps : List Poe)
      → IsChain p ps
      → batch c batch_hash (p ∷ ps) ≡ ok (composed batch_hash p ps)
  batch_chain batch_hash p ps l = batch_cons batch_hash p ps ∙ compose_chain batch_hash p ps l

  compose_broken :
      (batch_hash : Hash) (p : Poe) (ps : List Poe) (x : BatchError)
      → (chain_poes 1 ps (roots_of p.prev_state_root p)).0 ≡ err x
      → (compose c batch_hash (p ∷ ps) no_roots).0 ≡ err x
  unfolding compose chain_poes chain_poe
  compose_broken batch_hash p ps x e = rw e refl

  -- Where a chain is broken, `batch` returns the place of the break and the two roots that differ.
  pub batch_broken :
      (batch_hash : Hash) (p : Poe) (ps : List Poe) (q : Poe) (qs : List Poe)
      → IsChain p ps
      → ((last_of p ps).new_state_root ≡ q.prev_state_root → ⊥)
      → batch c batch_hash (p ∷ ps ++ q ∷ qs)
        ≡ err
            (unexpected_state_root (1 + length ps) (last_of p ps).new_state_root q.prev_state_root)
  batch_broken batch_hash p ps q qs l n =
      batch_cons batch_hash p (ps ++ q ∷ qs)
      ∙ compose_broken batch_hash p (ps ++ q ∷ qs) _
          (chain_poes_broken p.prev_state_root 1 p ps q qs l n)

  after_ok_tt :
      {B : Type 0} (k : Unit {0} → Action Roots BatchError B) (r : Outcome BatchError (Unit {0}))
      (t : Roots) (b : B)
      → (after k r t).0 ≡ ok b
      → r ≡ ok tt
  after_ok_tt k (ok tt) t b e = refl
  after_ok_tt k (err x) t b e = absurd (ground (arith, e))
  after_ok_tt k panic t b e = absurd (ground (arith, e))

  compose-IsChain :
      (batch_hash : Hash) (p : Poe) (ps : List Poe) (r : Poe)
      → (compose c batch_hash (p ∷ ps) no_roots).0 ≡ ok r
      → IsChain p ps
  unfolding compose chain_poes chain_poe
  compose-IsChain batch_hash p ps r e =
      let step = chain_poes 1 ps (roots_of p.prev_state_root p) in
      chain_poes_ok p.prev_state_root 1 p ps (after_ok_tt _ step.0 step.1 r e)

  pub batch_ok-IsChain :
      (batch_hash : Hash) (p : Poe) (ps : List Poe) (r : Poe)
      → batch c batch_hash (p ∷ ps) ≡ ok r
      → IsChain p ps
  batch_ok-IsChain batch_hash p ps r e =
      compose-IsChain batch_hash p ps r (sym (batch_cons batch_hash p ps) ∙ e)

  one_value : (o : Outcome BatchError Poe) {p q : Poe} → o ≡ ok p → o ≡ ok q → p ≡ q
  one_value o d e = ground (arith, d, e)

  -- A batch of proofs is a proof exactly when each proof starts from the state root that the one
  -- before it ends with, and then it leads from the first root to the last one.
  pub batch-IsChain :
      (batch_hash : Hash) (p : Poe) (ps : List Poe) (r : Poe)
      → (batch c batch_hash (p ∷ ps) ≡ ok r) ↔ (IsChain p ps × (composed batch_hash p ps ≡ r))
  batch-IsChain batch_hash p ps r = (
    λ e.
        let l = batch_ok-IsChain batch_hash p ps r e in
        (l, one_value (batch c batch_hash (p ∷ ps)) (batch_chain batch_hash p ps l) e),
    λ (l, e). batch_chain batch_hash p ps l ∙ ap ok e,
  )
