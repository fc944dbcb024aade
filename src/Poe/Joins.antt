-- ===== src/Poe/Joins.antt =====
-- Batches of batches.
use evm_executor_rs.Base.{◌≡◌, refl, ap, sym, ◌∙◌, List, [], ◌∷◌, ◌++◌, ok}
use evm_executor_rs.External.Traits.{Hash}
use evm_executor_rs.External.Crypto.{Crypto}
use evm_executor_rs.Poe.{Poe, batch}
use evm_executor_rs.Poe.Chains.{IsChain, last_of}
use evm_executor_rs.Poe.Batches.{composed, batch_chain, batch-IsChain}

last_of-append :
    (p : Poe) (ps : List Poe) (q : Poe) (qs : List Poe) → last_of p (ps ++ q ∷ qs) ≡ last_of q qs
last_of-append p [] q qs = refl
last_of-append p (x ∷ ps) q qs = last_of-append x ps q qs

IsChain-append :
    (p : Poe) (ps : List Poe) (q : Poe) (qs : List Poe)
    → IsChain p ps
    → (last_of p ps).new_state_root ≡ q.prev_state_root
    → IsChain q qs
    → IsChain p (ps ++ q ∷ qs)
IsChain-append p [] q qs l e m = (e, m)
IsChain-append p (x ∷ ps) q qs (d, l) e m = (d, IsChain-append x ps q qs l e m)

-- Two proofs speak of the same step between state roots, with the same withdrawals.
pub record IsSameStep (r s : Poe) : Type 0 where
  pub same_prev : r.prev_state_root ≡ s.prev_state_root
  pub same_new : r.new_state_root ≡ s.new_state_root
  pub same_withdrawal : r.withdrawal_root ≡ s.withdrawal_root

module _ (c : Crypto) where
  -- Batching two batches whose roots meet, and batching all of their proofs at once, both succeed
  -- and speak of the same step between state roots.
  pub batch-append :
      (h1 h2 h3 h4 : Hash) (p : Poe) (ps : List Poe) (q : Poe) (qs : List Poe) {r s : Poe}
      → batch c h1 (p ∷ ps) ≡ ok r
      → batch c h2 (q ∷ qs) ≡ ok s
      → r.new_state_root ≡ s.prev_state_root
      → (t : Poe) × (u : Poe) × (batch c h3 (r ∷ s ∷ []) ≡ ok t)
        × (batch c h4 (p ∷ ps ++ q ∷ qs) ≡ ok u)
        × IsSameStep t u
  batch-append h1 h2 h3 h4 p ps q qs {r} {s} d e meet =
      let (l, x) = (batch-IsChain c h1 p ps r).0 d in
      let (m, y) = (batch-IsChain c h2 q qs s).0 e in
      let joined =
        ap (λ (z : Poe). z.new_state_root) x ∙ meet ∙ sym (ap (λ (z : Poe). z.prev_state_root) y) in
      let whole = IsChain-append p ps q qs l joined m in
      let ends = last_of-append p ps q qs in
      (
        composed c h3 r (s ∷ []),
        composed c h4 p (ps ++ q ∷ qs),
        batch_chain c h3 r (s ∷ []) (meet, tt),
        batch_chain c h4 p (ps ++ q ∷ qs) whole,
        record {
          same_prev = sym (ap (λ (z : Poe). z.prev_state_root) x);
          same_new =
              sym (ap (λ (z : Poe). z.new_state_root) y)
              ∙ sym (ap (λ (z : Poe). z.new_state_root) ends);
          same_withdrawal =
              sym (ap (λ (z : Poe). z.withdrawal_root) y)
              ∙ sym (ap (λ (z : Poe). z.withdrawal_root) ends);
        },
      )
