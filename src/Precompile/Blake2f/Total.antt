-- ===== src/Precompile/Blake2f/Total.antt =====
-- The compression function never panics: no index is out of range, for any number of rounds, and
-- its words stay below 2^64.
use evm_executor_rs.Base.{
  ℕ, zero, suc, ◌+◌, ◌-◌, ◌%◌, ◌≤◌, ◌<◌, ◌≡◌, refl, ◌∙◌, Bool, true, false, Option, some, List, [],
  ◌∷◌, ◌++◌, arith, length, length-append, get_elem?, add_u64, u64_mod, if◌then◌else◌,
}
use Prim.Native.Nat.{bit_xor}
use evm_executor_rs.Base.Options.{◌>>=◌}
use evm_executor_rs.Base.Bits.{bit_xor_bound}
use evm_executor_rs.Base.Bytes.{All, All-append}
use evm_executor_rs.Precompile.Blake2f.{
  sigma, iv, rotate_right, set, add_three, add_two, xor_rotate, g, mix, round, run_rounds, xor_at,
  finish, compress,
}

abbrev pub IsWord : ℕ → Type 0
IsWord x = x < u64_mod

-- A number of words.
pub record AreWords (n : ℕ) (v : List ℕ) : Type 0 where
  pub size : length v ≡ n
  pub words : All IsWord v

-- A vector of words comes out.
pub record Makes (n : ℕ) (o : Option (List ℕ)) : Type 0 where
  pub vec : List ℕ
  pub made : o ≡ some vec
  pub are_words : AreWords n vec

pub elem_within :
    {A : Type 0} (P : A → Type 0) (xs : List A) (i : ℕ)
    → All P xs
    → i < length xs
    → (x : A) × (get_elem? xs i ≡ some x) × P x
elem_within P [] i p h = absurd (omega arith)
elem_within P (x ∷ xs) zero (p, ps) h = (x, refl, p)
elem_within P (x ∷ xs) (suc i) (p, ps) h = elem_within P xs i ps (omega arith)

set_within :
    (v : List ℕ) (i x : ℕ)
    → All IsWord v
    → i < length v
    → IsWord x
    → (w : List ℕ) × (set v i x ≡ some w) × (length w ≡ length v) × All IsWord w
unfolding set
set_within [] i x p h q = absurd (omega arith)
set_within (y ∷ v) zero x (p, ps) h q = (x ∷ v, refl, refl, (q, ps))
set_within (y ∷ v) (suc i) x (p, ps) h q =
    let (w, e, l, a) = set_within v i x ps (omega arith) q in
    (y ∷ w, rw e refl, omega (arith, l), (p, a))

module _ {n : ℕ} where
  set-Makes : (v : List ℕ) (i x : ℕ) → AreWords n v → i < n → IsWord x → Makes n (set v i x)
  set-Makes v i x w h q =
      let (u, e, l, a) = set_within v i x w.words (omega (arith, w.size)) q in
      record { vec = u; made = e; are_words = record { size = l ∙ w.size; words = a } }

  pub bind-Makes :
      (o : Option (List ℕ)) (f : List ℕ → Option (List ℕ))
      → Makes n o
      → ((v : List ℕ) → AreWords n v → Makes n (f v))
      → Makes n (o >>= f)
  bind-Makes o f m k = rw m.made (k m.vec m.are_words)

  -- An element is read.
  read-Makes :
      {A : Type 0} (P : A → Type 0) (xs : List A) (i : ℕ) (f : A → Option (List ℕ))
      → All P xs
      → i < length xs
      → ((x : A) → P x → Makes n (f x))
      → Makes n (get_elem? xs i >>= f)
  read-Makes P xs i f p h k = let (x, e, q) = elem_within P xs i p h in rw e (k x q)

  word-Makes :
      (v : List ℕ) (i : ℕ) (f : ℕ → Option (List ℕ))
      → AreWords n v
      → i < n
      → ((x : ℕ) → IsWord x → Makes n (f x))
      → Makes n (get_elem? v i >>= f)
  word-Makes v i f w h k = read-Makes IsWord v i f w.words (omega (arith, w.size)) k

  add_three-Makes :
      (v : List ℕ) (a b x : ℕ) → AreWords n v → a < n → b < n → Makes n (add_three v a b x)
  unfolding add_three
  add_three-Makes v a b x w ha hb = word-Makes v a _ w ha λ va _.
      word-Makes v b _ w hb λ vb _. set-Makes v a (add_u64 (add_u64 va vb) x) w ha (omega arith)

  add_two-Makes : (v : List ℕ) (c d : ℕ) → AreWords n v → c < n → d < n → Makes n (add_two v c d)
  unfolding add_two
  add_two-Makes v c d w hc hd =
      word-Makes v c _ w hc
        λ vc _. word-Makes v d _ w hd λ vd _. set-Makes v c (add_u64 vc vd) w hc (omega arith)

  xor_rotate-Makes :
      (v : List ℕ) (d a k : ℕ)
      → AreWords n v
      → d < n
      → a < n
      → ((x : ℕ) → IsWord x → IsWord (rotate_right x k))
      → Makes n (xor_rotate v d a k)
  unfolding xor_rotate
  xor_rotate-Makes v d a k w hd ha r = word-Makes v d _ w hd λ vd p. word-Makes v a _ w ha λ va q.
      set-Makes v d (rotate_right (bit_xor vd va) k) w hd
        (r (bit_xor vd va) (bit_xor_bound 64 vd va p q))

  g-Makes :
      (v : List ℕ) (a b c d x y : ℕ)
      → AreWords n v
      → a < n
      → b < n
      → c < n
      → d < n
      → Makes n (g v a b c d x y)
  unfolding g rotate_right
  g-Makes v a b c d x y w ha hb hc hd = bind-Makes _ _ (add_three-Makes v a b x w ha hb) λ v1 w1.
      bind-Makes _ _ (xor_rotate-Makes v1 d a 32 w1 hd ha (λ z p. omega arith)) λ v2 w2.
        bind-Makes _ _ (add_two-Makes v2 c d w2 hc hd) λ v3 w3.
          bind-Makes _ _ (xor_rotate-Makes v3 b c 24 w3 hb hc (λ z p. omega arith)) λ v4 w4.
            bind-Makes _ _ (add_three-Makes v4 a b y w4 ha hb) λ v5 w5.
              bind-Makes _ _ (xor_rotate-Makes v5 d a 16 w5 hd ha (λ z p. omega arith)) λ v6 w6.
                bind-Makes _ _ (add_two-Makes v6 c d w6 hc hd)
                  λ v7 w7. xor_rotate-Makes v7 b c 63 w7 hb hc (λ z p. omega arith)

-- The indices of a round are those of a message word.
abbrev IsIndex : ℕ → Type 0
IsIndex k = k < 16

abbrev IsLine : List ℕ → Type 0
IsLine s = (length s ≡ 16) × All IsIndex s

sigma-IsLine : All IsLine sigma
unfolding sigma
sigma-IsLine = omega arith

module _ (m : List ℕ) (mw : AreWords 16 m) where
  mix-Makes :
      (s v : List ℕ) (a b c d j k : ℕ)
      → IsLine s
      → AreWords 16 v
      → (a < 16) × (b < 16) × (c < 16) × (d < 16) × (j < 16) × (k < 16)
      → Makes 16 (mix m s v a b c d j k)
  unfolding mix
  mix-Makes s v a b c d j k (l, is) w (ha, hb, hc, hd, hj, hk) =
      read-Makes IsIndex s j _ is (omega arith) λ sj pj.
        read-Makes IsWord m sj _ mw.words (omega (arith, mw.size)) λ x _.
          read-Makes IsIndex s k _ is (omega arith) λ sk pk.
            read-Makes IsWord m sk _ mw.words (omega (arith, mw.size))
              λ y _. g-Makes v a b c d x y w ha hb hc hd

  round-Makes : (i : ℕ) (v : List ℕ) → AreWords 16 v → Makes 16 (round m i v)
  unfolding round
  round-Makes i v w =
      read-Makes IsLine sigma (i % 10) _ sigma-IsLine (unfold sigma in omega arith) λ s is.
        bind-Makes _ _ (mix-Makes s v 0 4 8 12 0 1 is w (omega arith)) λ v1 w1.
          bind-Makes _ _ (mix-Makes s v1 1 5 9 13 2 3 is w1 (omega arith)) λ v2 w2.
            bind-Makes _ _ (mix-Makes s v2 2 6 10 14 4 5 is w2 (omega arith)) λ v3 w3.
              bind-Makes _ _ (mix-Makes s v3 3 7 11 15 6 7 is w3 (omega arith)) λ v4 w4.
                bind-Makes _ _ (mix-Makes s v4 0 5 10 15 8 9 is w4 (omega arith)) λ v5 w5.
                  bind-Makes _ _ (mix-Makes s v5 1 6 11 12 10 11 is w5 (omega arith)) λ v6 w6.
                    bind-Makes _ _ (mix-Makes s v6 2 7 8 13 12 13 is w6 (omega arith))
                      λ v7 w7. mix-Makes s v7 3 4 9 14 14 15 is w7 (omega arith)

  run_rounds-Makes : (n i : ℕ) (v : List ℕ) → AreWords 16 v → Makes 16 (run_rounds n m i v)
  unfolding run_rounds
  run_rounds-Makes zero i v w = record { vec = v; made = refl; are_words = w }
  run_rounds-Makes (suc n) i v w =
      bind-Makes _ _ (round-Makes i v w) λ v' w'. run_rounds-Makes n (i + 1) v' w'

xor_at-Makes :
    {n : ℕ} (v : List ℕ) (i x : ℕ) → AreWords n v → i < n → IsWord x → Makes n (xor_at v i x)
unfolding xor_at
xor_at-Makes v i x w h p =
    word-Makes v i _ w h λ vi q. set-Makes v i (bit_xor vi x) w h (bit_xor_bound 64 vi x q p)

-- The halves of the working vector are folded into the state of 8 words.
finish-Makes :
    (n i : ℕ) (h v : List ℕ) → AreWords 8 h → AreWords 16 v → i + n ≤ 8 → Makes 8 (finish n i h v)
unfolding finish
finish-Makes zero i h v hw vw le = record { vec = h; made = refl; are_words = hw }
finish-Makes (suc n) i h v hw vw le =
    bind-Makes _ _
      (read-Makes IsWord v i _ vw.words (omega (arith, vw.size)) λ vi p.
        read-Makes IsWord v (i + 8) _ vw.words (omega (arith, vw.size))
          λ vj q. xor_at-Makes h i (bit_xor vi vj) hw (omega arith) (bit_xor_bound 64 vi vj p q))
      (λ h' hw'. finish-Makes n (i + 1) h' v hw' vw (omega arith))

invert-Makes :
    (f : Bool) (v : List ℕ)
    → AreWords 16 v
    → Makes 16 (if f then (get_elem? v 14 >>= λ last. set v 14 (u64_mod - 1 - last)) else some v)
invert-Makes true v w =
    word-Makes v 14 _ w (omega arith)
      λ last p. set-Makes v 14 (u64_mod - 1 - last) w (omega arith) (omega arith)
invert-Makes false v w = record { vec = v; made = refl; are_words = w }

-- Two runs one after the other, of other sizes.
then-Makes :
    {n k : ℕ} (o : Option (List ℕ)) (f : List ℕ → Option (List ℕ))
    → Makes n o
    → ((v : List ℕ) → AreWords n v → Makes k (f v))
    → Makes k (o >>= f)
then-Makes o f m k = rw m.made (k m.vec m.are_words)

iv-AreWords : AreWords 8 iv
unfolding iv
iv-AreWords = record { size = refl; words = omega arith }

pub compress-Makes :
    (h m : List ℕ) (t0 t1 : ℕ) (f : Bool) (rounds : ℕ)
    → AreWords 8 h
    → AreWords 16 m
    → IsWord t0
    → IsWord t1
    → Makes 8 (compress h m t0 t1 f rounds)
unfolding compress
compress-Makes h m t0 t1 f rounds hw mw p q =
    let start : AreWords 16 (h ++ iv) = record {
      size = omega (arith, length-append h iv, hw.size, iv-AreWords.size);
      words = All-append IsWord h iv hw.words iv-AreWords.words;
    } in
    then-Makes _ _ (xor_at-Makes (h ++ iv) 12 t0 start (omega arith) p) λ v1 w1.
      then-Makes _ _ (xor_at-Makes v1 13 t1 w1 (omega arith) q) λ v2 w2.
        then-Makes _ _ (invert-Makes f v2 w2) λ v3 w3.
          then-Makes _ _ (run_rounds-Makes m mw rounds 0 v3 w3)
            λ v4 w4. finish-Makes 8 0 h v4 hw w4 (omega arith)
