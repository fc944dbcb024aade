-- ===== src/Precompile/Curve/Points.antt =====
-- What the addition and the multiplication on the curve return for the points of their inputs, and
-- that the order of the two points of an addition does not matter.
use evm_executor_rs.Base.{
  ℕ, ◌+◌, ◌-◌, ◌≤◌, ◌<◌, ◌≡◌, refl, ap, sym, ◌∙◌, ◌⊎◌, Bool-cases, inl, inr, Option, none, some,
  ◌++◌, arith, length, length-append, length-take, leb, leb→le, ◌&&◌, if◌then◌else◌, panic,
}
use evm_executor_rs.Base.Options.{◌>>=◌}
use evm_executor_rs.Base.Options.Results
use evm_executor_rs.Base.Options.Results.{unwrap}
use evm_executor_rs.Base.Bytes.{byte_at, slice, replicate, length-replicate}
use evm_executor_rs.Base.Bytes.Windows.{
  window, window_same, length-window, slice-window, byte_at-append_zeros, byte_at-take,
  window-append_left, window-append_right,
}
use evm_executor_rs.External.Traits.{Bytes}
use evm_executor_rs.External.Bn.{Bn, BnLaws}
use evm_executor_rs.Precompile.Contract.{PrecompileResult, returned_bytes}
use evm_executor_rs.Precompile.Curve.{resize, read_point, point_bytes, add_run, mul_run}

length-resize : (n : ℕ) (xs : Bytes) → length (resize n xs) ≡ n
unfolding resize
length-resize n xs = elim (Bool-cases (leb (length xs) n)) [
  | inl short ↦ rw short (
      omega (
        arith,
        length-append xs (replicate (n - length xs) 0),
        length-replicate {A = ℕ} (n - length xs) 0,
        leb→le (length xs) n short,
      ))
  | inr long ↦ rw long (ground (arith, length-take n xs, long))
]

byte_at-resize : (n : ℕ) (xs : Bytes) (i : ℕ) → i < n → byte_at (resize n xs) i ≡ byte_at xs i
unfolding resize
byte_at-resize n xs i h = elim (Bool-cases (leb (length xs) n)) [
  | inl short ↦ rw short (byte_at-append_zeros xs (n - length xs) i)
  | inr long ↦ rw long (byte_at-take n xs i h)
]

slice-resize :
    (n : ℕ) (xs : Bytes) (pos size : ℕ)
    → pos + size ≤ n
    → slice (resize n xs) pos (pos + size) ≡ some (window size xs pos)
slice-resize n xs pos size h =
    slice-window (resize n xs) pos size (omega (arith, length-resize n xs, h))
    ∙ ap some (window_same size (resize n xs) xs pos n (byte_at-resize n xs) h)

module _ (bn : Bn) where
  -- The point with two coordinates, if they are those of a point of the curve or zeros.
  abbrev pub point_of : Option bn.Fq → Option bn.Fq → Option bn.G1
  point_of none y = none
  point_of (some x) none = none
  point_of (some x) (some y) =
      if bn.fq_eq x bn.fq_zero && bn.fq_eq y bn.fq_zero then some bn.g1_zero else bn.affine_g1 x y

  -- The point whose coordinates are the two words from a place on.
  abbrev pub point_at : Bytes → ℕ → Option bn.G1
  point_at input pos =
      point_of (bn.fq_from_slice (window 32 input pos))
        (bn.fq_from_slice (window 32 input (pos + 32)))

  read_point-resize :
      (n : ℕ) (input : Bytes) (pos : ℕ)
      → pos + 64 ≤ n
      → read_point bn (resize n input) pos ≡ point_at input pos
  unfolding read_point
  read_point-resize n input pos h =
      rw
        (
          slice-resize n input pos 32 (omega (arith, h)),
          slice-resize n input (pos + 32) 32 (omega (arith, h)),
        )
        (both (bn.fq_from_slice (window 32 input pos))
          (bn.fq_from_slice (window 32 input (pos + 32))))
    where
      both :
          (x y : Option bn.Fq)
          → (x >>= λ px. y >>= λ py.
              if bn.fq_eq px bn.fq_zero && bn.fq_eq py bn.fq_zero
              then some bn.g1_zero
              else bn.affine_g1 px py)
            ≡ point_of x y
      both none y = refl
      both (some x) none = refl
      both (some x) (some y) = refl

  -- The sum of two points in bytes.
  sum_run : Option bn.G1 → Option bn.G1 → PrecompileResult
  sum_run o1 o2 = Results.◌>>=◌ (unwrap o1) λ p1. Results.◌>>=◌ (unwrap o2) λ p2.
      Results.◌>>=◌
        (unwrap (point_bytes bn bn.into_u256_bytes (bn.from_jacobian (bn.g1_add p1 p2))))
        returned_bytes

  add_run_points :
      (input : Bytes) → add_run bn input ≡ sum_run (point_at input 0) (point_at input 64)
  unfolding add_run sum_run
  add_run_points input =
      rw (read_point-resize 128 input 0 (omega arith), read_point-resize 128 input 64 (omega arith))
        refl

  -- The bytes of a point with affine coordinates, or of none, the point at infinity, for a way to
  -- write a coordinate.
  abbrev pub IsPoint : (bn.Fq → Option Bytes) → Option (bn.Fq × bn.Fq) → Bytes → Type 0
  IsPoint write o out =
      ((o ≡ none) × (out ≡ replicate 64 0))
      ⊎ ((x y : bn.Fq) × (bx by' : Bytes) × (o ≡ some (x, y))
          × ((write x ≡ some bx) × (length bx ≡ 32))
          × ((write y ≡ some by') × (length by' ≡ 32))
          × (out ≡ bx ++ by'))

  point_bytes-IsPoint :
      (write : bn.Fq → Option Bytes)
      → ((x : bn.Fq) → (b : Bytes) × (write x ≡ some b) × (length b ≡ 32))
      → (o : Option (bn.Fq × bn.Fq))
      → (out : Bytes) × (point_bytes bn write o ≡ some out) × IsPoint write o out
  point_bytes-IsPoint write total none = (replicate 64 0, refl, inl (refl, refl))
  point_bytes-IsPoint write total (some (x, y)) =
      let (bx, ex, lx) = total x in
      let (by', ey, ly) = total y in
      (bx ++ by', rw (ex, ey) refl, inr (x, y, bx, by', refl, (ex, lx), (ey, ly), refl))

  module _ (laws : BnLaws bn) where
    sum_cases :
        (o1 o2 : Option bn.G1)
        → ((sum_run o1 o2 ≡ panic) × ((o1 ≡ none) ⊎ (o2 ≡ none)))
          ⊎ ((p q : bn.G1) × (out : Bytes) × (o1 ≡ some p)
              × (o2 ≡ some q)
              × (sum_run o1 o2 ≡ returned_bytes out)
              × IsPoint bn.into_u256_bytes (bn.from_jacobian (bn.g1_add p q)) out)
    unfolding sum_run
    sum_cases none o2 = inl (refl, inl refl)
    sum_cases (some p) none = inl (refl, inr refl)
    sum_cases (some p) (some q) =
        let (out, e, h) =
          point_bytes-IsPoint bn.into_u256_bytes laws.length-into_u256_bytes
            (bn.from_jacobian (bn.g1_add p q)) in
        inr (p, q, out, refl, refl, rw e refl, h)

    -- Either one of the two points of the input is none of the curve, and the contract panics; or
    -- it returns their sum: 64 zeros if that is the point at infinity, and else the 32 bytes of its
    -- first coordinate and then the 32 of its second. It never returns an error. Bytes beyond the
    -- end of the input count as zeros, and two zeros are the point at infinity.
    pub add_run_value :
        (input : Bytes)
        → ((add_run bn input ≡ panic) × ((point_at input 0 ≡ none) ⊎ (point_at input 64 ≡ none)))
          ⊎ ((p q : bn.G1) × (out : Bytes) × (point_at input 0 ≡ some p)
              × (point_at input 64 ≡ some q)
              × (add_run bn input ≡ returned_bytes out)
              × IsPoint bn.into_u256_bytes (bn.from_jacobian (bn.g1_add p q)) out)
    add_run_value input =
        rw (add_run_points input) (sum_cases (point_at input 0) (point_at input 64))

    sum_swap : (o1 o2 : Option bn.G1) → sum_run o1 o2 ≡ sum_run o2 o1
    unfolding sum_run
    sum_swap none none = refl
    sum_swap none (some q) = refl
    sum_swap (some p) none = refl
    sum_swap (some p) (some q) = rw (laws.g1_add_comm p q) refl

    point_at_left : (xs ys : Bytes) → length xs ≡ 64 → point_at (xs ++ ys) 0 ≡ point_at xs 0
    point_at_left xs ys h =
        rw
          (
            window-append_left 32 xs ys 0 (omega (arith, h)),
            window-append_left 32 xs ys 32 (omega (arith, h)),
          )
          refl

    point_at_right : (xs ys : Bytes) → length xs ≡ 64 → point_at (xs ++ ys) 64 ≡ point_at ys 0
    point_at_right xs ys h =
        rw (behind 0 64 (omega (arith, h)), behind 32 96 (omega (arith, h))) refl
      where
        behind : (pos k : ℕ) → k ≡ length xs + pos → window 32 (xs ++ ys) k ≡ window 32 ys pos
        behind pos k e = ap (window 32 (xs ++ ys)) e ∙ window-append_right 32 xs ys pos

    -- The two points of an input, 64 bytes each, may be swapped: the contract then returns the same
    -- bytes, or panics as before.
    pub add_run_swap :
        (xs ys : Bytes)
        → length xs ≡ 64
        → length ys ≡ 64
        → add_run bn (xs ++ ys) ≡ add_run bn (ys ++ xs)
    add_run_swap xs ys hx hy =
        add_run_points (xs ++ ys)
        ∙ rw
            (
              point_at_left xs ys hx,
              point_at_right xs ys hx,
              point_at_left ys xs hy,
              point_at_right ys xs hy,
            )
            (sum_swap (point_at xs 0) (point_at ys 0))
        ∙ sym (add_run_points (ys ++ xs))

    mul_cases :
        (o : Option bn.G1) (word : Bytes)
        → length word ≡ 32
        → let run = Results.◌>>=◌ (unwrap o) λ p.
          Results.◌>>=◌ (unwrap (bn.fr_from_slice word)) λ fr.
            Results.◌>>=◌
              (unwrap (point_bytes bn bn.fq_bytes (bn.from_jacobian (bn.g1_mul p fr))))
              returned_bytes in
          ((run ≡ panic) × (o ≡ none))
          ⊎ ((p : bn.G1) × (r : bn.Fr) × (out : Bytes) × (o ≡ some p)
              × (bn.fr_from_slice word ≡ some r)
              × (run ≡ returned_bytes out)
              × IsPoint bn.fq_bytes (bn.from_jacobian (bn.g1_mul p r)) out)
    mul_cases none word h = inl (refl, refl)
    mul_cases (some p) word h =
        let (r, er) = laws.fr_from_slice_32 word h in
        let (out, e, is) =
          point_bytes-IsPoint bn.fq_bytes laws.length-fq_bytes (bn.from_jacobian (bn.g1_mul p r)) in
        inr (p, r, out, refl, er, rw (er, e) refl, is)

    -- Either the point of the input is none of the curve, and the contract panics; or it returns
    -- the point times the number that the third word spells in the scalar field: 64 zeros if that
    -- is the point at infinity, and else the 32 bytes of its first coordinate and then the 32 of
    -- its second. It never returns an error. Bytes beyond the end of the input count as zeros, and
    -- two zeros are the point at infinity.
    pub mul_run_value :
        (input : Bytes)
        → ((mul_run bn input ≡ panic) × (point_at input 0 ≡ none))
          ⊎ ((p : bn.G1) × (r : bn.Fr) × (out : Bytes) × (point_at input 0 ≡ some p)
              × (bn.fr_from_slice (window 32 input 64) ≡ some r)
              × (mul_run bn input ≡ returned_bytes out)
              × IsPoint bn.fq_bytes (bn.from_jacobian (bn.g1_mul p r)) out)
    unfolding mul_run
    mul_run_value input =
        rw (read_point-resize 128 input 0 (omega arith), slice-resize 128 input 64 32 (omega arith))
          (mul_cases (point_at input 0) (window 32 input 64) (length-window 32 input 64))
