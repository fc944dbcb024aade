-- ===== src/Precompile/Blake2f.antt =====
-- `eip_152` of src/precompile.rs, the BLAKE2b compression function. A word is a number below 2^64;
-- `none` is a panic, of an index out of range.
pub mod Total
use evm_executor_rs.Base.{
  ℕ, zero, suc, ◌+◌, ◌-◌, ◌*◌, ◌/◌, ◌%◌, ◌^◌, Bool, Option, none, some, List, [], ◌∷◌, ◌++◌,
  if◌then◌else◌, add_u64, u64_mod, get_elem?,
}
use Prim.Native.Nat.{bit_xor}
use evm_executor_rs.Base.Options.{◌>>=◌}

abbrev sigma_line : ℕ → ℕ → ℕ → ℕ → ℕ → ℕ → ℕ → ℕ → ℕ → ℕ → ℕ → ℕ → ℕ → ℕ → ℕ → ℕ → List ℕ
sigma_line a b c d e f g h i j k l m n o p =
    a ∷ b ∷ c ∷ d ∷ e ∷ f ∷ g ∷ h ∷ i ∷ j ∷ k ∷ l ∷ m ∷ n ∷ o ∷ p ∷ []

unfoldable pub sigma : List (List ℕ)
sigma =
    sigma_line 0 1 2 3 4 5 6 7 8 9 10 11 12 13 14 15
    ∷ sigma_line 14 10 4 8 9 15 13 6 1 12 0 2 11 7 5 3
    ∷ sigma_line 11 8 12 0 5 2 15 13 10 14 3 6 7 1 9 4
    ∷ sigma_line 7 9 3 1 13 12 11 14 2 6 5 10 4 0 15 8
    ∷ sigma_line 9 0 5 7 2 4 10 15 14 1 11 12 6 8 3 13
    ∷ sigma_line 2 12 6 10 0 11 8 3 4 13 7 5 15 14 1 9
    ∷ sigma_line 12 5 1 15 14 13 4 10 0 7 6 3 9 2 8 11
    ∷ sigma_line 13 11 7 14 12 1 3 9 5 0 15 4 8 6 2 10
    ∷ sigma_line 6 15 14 9 11 3 0 8 12 2 13 7 1 4 10 5
    ∷ sigma_line 10 2 8 4 7 6 1 5 15 11 9 14 3 12 13 0
    ∷ []

unfoldable pub iv : List ℕ
iv =
    0x6a09e667f3bcc908 ∷ 0xbb67ae8584caa73b ∷ 0x3c6ef372fe94f82b ∷ 0xa54ff53a5f1d36f1
    ∷ 0x510e527fade682d1 ∷ 0x9b05688c2b3e6c1f ∷ 0x1f83d9abfb41bd6b ∷ 0x5be0cd19137e2179 ∷ []

-- `u64::rotate_right`
unfoldable pub rotate_right : ℕ → ℕ → ℕ
rotate_right x n = x / 2 ^ n + x % 2 ^ n * 2 ^ (64 - n)

-- `v[i] = x`
unfoldable pub set : List ℕ → ℕ → ℕ → Option (List ℕ)
set [] i x = none
set (w ∷ v) zero x = some (x ∷ v)
set (w ∷ v) (suc i) x = set v i x >>= λ rest. some (w ∷ rest)

-- `v[a] = v[a].wrapping_add(v[b]).wrapping_add(x)`
unfoldable pub add_three : List ℕ → ℕ → ℕ → ℕ → Option (List ℕ)
add_three v a b x = do va ← get_elem? v a; vb ← get_elem? v b; set v a (add_u64 (add_u64 va vb) x)

-- `v[c] = v[c].wrapping_add(v[d])`
unfoldable pub add_two : List ℕ → ℕ → ℕ → Option (List ℕ)
add_two v c d = do vc ← get_elem? v c; vd ← get_elem? v d; set v c (add_u64 vc vd)

-- `v[d] = (v[d] ^ v[a]).rotate_right(n)`
unfoldable pub xor_rotate : List ℕ → ℕ → ℕ → ℕ → Option (List ℕ)
unfolding rotate_right
xor_rotate v d a n = do
  vd ← get_elem? v d
  va ← get_elem? v a
  set v d (rotate_right (bit_xor vd va) n)

unfoldable pub g : List ℕ → ℕ → ℕ → ℕ → ℕ → ℕ → ℕ → Option (List ℕ)
g v a b c d x y = do
  v ← add_three v a b x
  v ← xor_rotate v d a 32
  v ← add_two v c d
  v ← xor_rotate v b c 24
  v ← add_three v a b y
  v ← xor_rotate v d a 16
  v ← add_two v c d
  xor_rotate v b c 63

-- `g(&mut v, a, b, c, d, m[s[j]], m[s[k]])`
unfoldable pub mix : List ℕ → List ℕ → List ℕ → ℕ → ℕ → ℕ → ℕ → ℕ → ℕ → Option (List ℕ)
mix m s v a b c d j k = do
  sj ← get_elem? s j
  x ← get_elem? m sj
  sk ← get_elem? s k
  y ← get_elem? m sk
  g v a b c d x y

unfoldable pub round : List ℕ → ℕ → List ℕ → Option (List ℕ)
round m i v = do
  s ← get_elem? sigma (i % 10)
  v ← mix m s v 0 4 8 12 0 1
  v ← mix m s v 1 5 9 13 2 3
  v ← mix m s v 2 6 10 14 4 5
  v ← mix m s v 3 7 11 15 6 7
  v ← mix m s v 0 5 10 15 8 9
  v ← mix m s v 1 6 11 12 10 11
  v ← mix m s v 2 7 8 13 12 13
  mix m s v 3 4 9 14 14 15

-- `for i in 0..rounds`, from a round on, with a number of rounds to go.
unfoldable pub run_rounds : ℕ → List ℕ → ℕ → List ℕ → Option (List ℕ)
run_rounds zero m i v = some v
run_rounds (suc n) m i v = round m i v >>= λ v'. run_rounds n m (i + 1) v'

-- `v[i] ^= x`
unfoldable pub xor_at : List ℕ → ℕ → ℕ → Option (List ℕ)
xor_at v i x = do vi ← get_elem? v i; set v i (bit_xor vi x)

-- `if f { v[14] = !v[14] }`
abbrev invert_last : Bool → List ℕ → Option (List ℕ)
invert_last f v = if f then (do last ← get_elem? v 14; set v 14 (u64_mod - 1 - last)) else some v

-- `for i in 0..8 { h[i] ^= v[i] ^ v[i + 8]; }`
unfoldable pub finish : ℕ → ℕ → List ℕ → List ℕ → Option (List ℕ)
unfolding xor_at
finish zero i h v = some h
finish (suc n) i h v =
    (do vi ← get_elem? v i; vj ← get_elem? v (i + 8); xor_at h i (bit_xor vi vj)) >>= λ h'.
    finish n (i + 1) h' v

-- The new state vector. Half of the working vector is the old one, which has 8 words.
unfoldable pub compress : List ℕ → List ℕ → ℕ → ℕ → Bool → ℕ → Option (List ℕ)
unfolding xor_at iv
compress h m t0 t1 f rounds = do
  v ← xor_at (h ++ iv) 12 t0
  v ← xor_at v 13 t1
  v ← invert_last f v
  v ← run_rounds rounds m 0 v
  finish 8 0 h v
