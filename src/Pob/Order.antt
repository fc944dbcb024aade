-- ===== src/Pob/Order.antt =====
-- `Pob::state_hash` does not depend on the order of the nodes, and is computed once.
use evm_executor_rs.Base.{◌≡◌, refl, ap, ◌∙◌, true, false, none, List, [], ◌∷◌, arith}
use evm_executor_rs.External.Traits.{Bytes}
use mathlib.Core.List.{Permᴰ, Perm}
use mathlib.Core.Logic.{∥∥₁_elim}
use evm_executor_rs.External.Crypto.{Crypto}
use evm_executor_rs.Pob.{Pob, bytes_le, insert_sorted, sort_unstable, state_hash}

bytes_le_total : (xs ys : Bytes) → bytes_le xs ys ≡ false → bytes_le ys xs ≡ true
bytes_le_total [] ys e = absurd (ground (arith, e))
bytes_le_total (x ∷ xs) [] e = refl
bytes_le_total (x ∷ xs) (y ∷ ys) e = ground (arith, e, bytes_le_total xs ys)

bytes_le_antisym : (xs ys : Bytes) → bytes_le xs ys ≡ true → bytes_le ys xs ≡ true → xs ≡ ys
bytes_le_antisym [] [] d e = refl
bytes_le_antisym [] (y ∷ ys) d e = absurd (ground (arith, e))
bytes_le_antisym (x ∷ xs) [] d e = absurd (ground (arith, d))
bytes_le_antisym (x ∷ xs) (y ∷ ys) d e = ground (arith, d, e, bytes_le_antisym xs ys)

bytes_le_trans :
    (xs ys zs : Bytes) → bytes_le xs ys ≡ true → bytes_le ys zs ≡ true → bytes_le xs zs ≡ true
bytes_le_trans [] ys zs d e = refl
bytes_le_trans (x ∷ xs) [] zs d e = absurd (ground (arith, d))
bytes_le_trans (x ∷ xs) (y ∷ ys) [] d e = absurd (ground (arith, e))
bytes_le_trans (x ∷ xs) (y ∷ ys) (z ∷ zs) d e = ground (arith, d, e, bytes_le_trans xs ys zs)

insert_swap :
    (x y : Bytes) (zs : List Bytes)
    → insert_sorted x (insert_sorted y zs) ≡ insert_sorted y (insert_sorted x zs)
insert_swap x y [] = ground (arith, bytes_le_total x y, bytes_le_antisym x y)
insert_swap x y (z ∷ zs) = ground (
  arith,
  insert_swap x y zs,
  bytes_le_total x y,
  bytes_le_antisym x y,
  bytes_le_total x z,
  bytes_le_total y z,
  bytes_le_trans x y z,
  bytes_le_trans y x z,
)

sort_permuted : {xs ys : List Bytes} → Permᴰ xs ys → sort_unstable xs ≡ sort_unstable ys
sort_permuted Permᴰ.nil = refl
sort_permuted (Permᴰ.cons {a} {b} {l₁ = xs} {l₂ = ys} e p) =
    ap (λ x. insert_sorted x (sort_unstable xs)) e ∙ ap (insert_sorted b) (sort_permuted p)
sort_permuted (Permᴰ.swap {a} {b} {a' = head} {l = zs} e d) =
    insert_swap a b (sort_unstable zs)
    ∙ ap (λ x. insert_sorted x (insert_sorted a (sort_unstable zs))) d
    ∙ ap (λ x. insert_sorted head (insert_sorted x (sort_unstable zs))) e
sort_permuted (Permᴰ.trans p q) = sort_permuted p ∙ sort_permuted q

sort_Perm : {xs ys : List Bytes} → Perm xs ys → sort_unstable xs ≡ sort_unstable ys
sort_Perm p = ∥∥₁_elim p (hlevel) sort_permuted

abbrev pub with_nodes : {Block : Type 0} → List Bytes → Pob Block → Pob Block
with_nodes nodes pob = record pob { payload = record (pob.payload) { mpt_nodes = nodes } }

module _ (c : Crypto) {Block : Type 0} where
  sorted_permuted :
      (pob : Pob Block) (nodes : List Bytes)
      → pob.state_hash ≡ none
      → sort_unstable pob.payload.mpt_nodes ≡ sort_unstable nodes
      → state_hash c pob ≡ state_hash c (with_nodes nodes pob)
  unfolding state_hash
  sorted_permuted pob nodes fresh e = rw (fresh, e) refl

  -- The hash that a fresh proof of block computes, and the proof that it leaves, depend on its
  -- nodes only up to their order, and both stay when the hash is asked for again.
  pub state_hash_permuted :
      (pob : Pob Block) (nodes : List Bytes)
      → pob.state_hash ≡ none
      → Perm pob.payload.mpt_nodes nodes
      → (state_hash c pob ≡ state_hash c (with_nodes nodes pob))
        × (state_hash c (state_hash c pob).1 ≡ state_hash c pob)
  unfolding state_hash
  state_hash_permuted pob nodes fresh p =
      (sorted_permuted pob nodes fresh (sort_Perm p), rw fresh refl)
