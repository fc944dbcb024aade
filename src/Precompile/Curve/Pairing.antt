-- ===== src/Precompile/Curve/Pairing.antt =====
-- The pairing check against a reading of its input that has no slices and no texts of errors.
use evm_executor_rs.Base.{
  ℕ, zero, suc, ◌+◌, ◌*◌, ◌/◌, ◌%◌, ◌≤◌, ◌≡◌, refl, ap, sym, ◌∙◌, ◌⊎◌, ◌++◌, leb, Bool, true, false,
  Bool-cases, inl, inr, Option, none, some, List, [], ◌∷◌, arith, length, ◌==◌, ==_iff, ◌&&◌, not,
  if◌then◌else◌, Outcome, ok, err, panic,
}
use Prim.Native.String.{String}
use evm_executor_rs.Base.Options
use evm_executor_rs.Base.Options.Results.{◌>>=◌}
use evm_executor_rs.Base.Bytes.{replicate}
use evm_executor_rs.Base.Bytes.Windows.{window, slice-window}
use evm_executor_rs.External.Traits.{Bytes}
use evm_executor_rs.External.Bn.{Bn, BnLaws}
use evm_executor_rs.Precompile.Contract.{PrecompileFailure, returned_bytes, exit_error}
use evm_executor_rs.Precompile.Curve.{
  bit_word, or_error, read_fq, pair_g1, pair_g2, read_pair, read_pairs, fold_pairs, pair_output,
  exceeds_pairs, pair_run,
}

-- An outcome has the value of an option, or is an error where there is none; it is no panic.
abbrev Agrees : {A : Type 0} → Outcome PrecompileFailure A → Option A → Type 0
Agrees (ok a) s = s ≡ some a
Agrees (err e) s = (s ≡ none) × (text : String) × (e ≡ exit_error text)
Agrees panic s = ⊥

chain-Agrees :
    {A B : Type 0} (o : Outcome PrecompileFailure A) (s : Option A)
    (f : A → Outcome PrecompileFailure B) (g : A → Option B)
    → Agrees o s
    → ((a : A) → Agrees (f a) (g a))
    → Agrees (o >>= f) (Options.◌>>=◌ s g)
chain-Agrees (ok a) s f g h k = rw h (k a)
chain-Agrees (err e) s f g (h, text, t) k = rw h (refl, text, t)
chain-Agrees panic s f g h k = absurd h

module _ (bn : Bn) where
  or_error-Agrees : {A : Type 0} (o : Option A) (val : String) → Agrees (or_error bn o val) o
  unfolding exit_error
  or_error-Agrees none val = (refl, val, refl)
  or_error-Agrees (some a) val = refl

  -- The points with given coordinates: infinity for zeros, none off the curve.
  abbrev pub g1_of : bn.Fq → bn.Fq → Option bn.G1
  g1_of x y = if bn.fq_is_zero x && bn.fq_is_zero y then some bn.g1_zero else bn.affine_g1 x y

  abbrev pub g2_of : bn.Fq2 → bn.Fq2 → Option bn.G2
  g2_of x y = if bn.fq2_is_zero x && bn.fq2_is_zero y then some bn.g2_zero else bn.affine_g2 x y

  abbrev word_at : Bytes → ℕ → Option bn.Fq
  word_at input pos = bn.fq_from_slice (window 32 input pos)

  -- The pair of points whose six words start at a place: the two coordinates of the first, and
  -- those of the second with their imaginary parts first.
  unfoldable pub pair_at : Bytes → ℕ → Option (bn.G1 × bn.G2)
  pair_at input pos = Options.◌>>=◌ (word_at input pos) λ ax.
      Options.◌>>=◌ (word_at input (pos + 32)) λ ay.
        Options.◌>>=◌ (word_at input (pos + 64)) λ bx_imaginary.
          Options.◌>>=◌ (word_at input (pos + 96)) λ bx_real.
            Options.◌>>=◌ (word_at input (pos + 128)) λ by_imaginary.
              Options.◌>>=◌ (word_at input (pos + 160)) λ by_real. Options.◌>>=◌ (g1_of ax ay) λ a.
                Options.◌>>=◌
                  (g2_of (bn.fq2_new bx_real bx_imaginary) (bn.fq2_new by_real by_imaginary))
                  λ b. some (a, b)

  unfoldable pub pairs_at : ℕ → Bytes → ℕ → Option (List (bn.G1 × bn.G2))
  pairs_at zero input idx = some []
  pairs_at (suc n) input idx =
      Options.◌>>=◌ (pair_at input (idx * 192))
        λ pair. Options.◌>>=◌ (pairs_at n input (idx + 1)) λ vals. some (pair ∷ vals)

  -- The product of the pairings of all pairs.
  abbrev pub product : List (bn.G1 × bn.G2) → bn.Gt
  product [] = bn.gt_one
  product ((a, b) ∷ vals) = bn.gt_mul (bn.pairing a b) (product vals)

  -- At most a number of pairs, if there is a limit.
  abbrev pub fits : Option ℕ → ℕ → Bool
  fits none size = true
  fits (some pairs) size = leb size (192 * pairs)

  -- Whether the product of the pairings is one; nothing for an input that is too long, of a wrong
  -- length or with words that are no points.
  unfoldable pub pairing_check : Option ℕ → Bytes → Option Bool
  pairing_check limit input =
      if fits limit (length input) && length input % 192 == 0
      then (Options.◌>>=◌ (pairs_at (length input / 192) input 0)
          λ vals. some (bn.gt_eq (product vals) bn.gt_one))
      else none

  read_fq-Agrees :
      (input : Bytes) (pos : ℕ) (val : String)
      → pos + 32 ≤ length input
      → Agrees (read_fq bn input pos val) (bn.fq_from_slice (window 32 input pos))
  unfolding read_fq
  read_fq-Agrees input pos val h =
      rw (slice-window input pos 32 h)
        (or_error-Agrees (bn.fq_from_slice (window 32 input pos)) val)

  pair_g1-Agrees : (x y : bn.Fq) → Agrees (pair_g1 bn x y) (g1_of x y)
  unfolding pair_g1
  pair_g1-Agrees x y = elim (Bool-cases (bn.fq_is_zero x && bn.fq_is_zero y)) [
    | inl e ↦ rw e refl
    | inr e ↦ rw e (or_error-Agrees (bn.affine_g1 x y) "Invalid a argument - not on curve")
  ]

  pair_g2-Agrees : (x y : bn.Fq2) → Agrees (pair_g2 bn x y) (g2_of x y)
  unfolding pair_g2
  pair_g2-Agrees x y = elim (Bool-cases (bn.fq2_is_zero x && bn.fq2_is_zero y)) [
    | inl e ↦ rw e refl
    | inr e ↦ rw e (or_error-Agrees (bn.affine_g2 x y) "Invalid a argument - not on curve")
  ]

  -- A coordinate, and what follows it.
  coordinate :
      {A : Type 0} (input : Bytes) (pos : ℕ) (val : String)
      (f : bn.Fq → Outcome PrecompileFailure A) (g : bn.Fq → Option A)
      → pos + 32 ≤ length input
      → ((x : bn.Fq) → Agrees (f x) (g x))
      → Agrees (read_fq bn input pos val >>= f) (Options.◌>>=◌ (word_at input pos) g)
  coordinate input pos val f g h k =
      chain-Agrees (read_fq bn input pos val) (word_at input pos) f g
        (read_fq-Agrees input pos val h) k

  points-Agrees :
      (ax ay : bn.Fq) (x y : bn.Fq2)
      → Agrees {A = bn.G1 × bn.G2}
          (pair_g1 bn ax ay >>= λ a. pair_g2 bn x y >>= λ b. ok (a, b))
          (Options.◌>>=◌ (g1_of ax ay) λ a. Options.◌>>=◌ (g2_of x y) λ b. some (a, b))
  points-Agrees ax ay x y =
      chain-Agrees (pair_g1 bn ax ay) (g1_of ax ay) _ _ (pair_g1-Agrees ax ay)
        λ a. chain-Agrees (pair_g2 bn x y) (g2_of x y) _ _ (pair_g2-Agrees x y) λ b. refl

  read_pair-Agrees :
      (input : Bytes) (pos : ℕ)
      → pos + 192 ≤ length input
      → Agrees (read_pair bn input pos) (pair_at input pos)
  unfolding read_pair pair_at
  read_pair-Agrees input pos h = coordinate input pos _ _ _ (omega (arith, h)) λ ax.
      coordinate input (pos + 32) _ _ _ (omega (arith, h)) λ ay.
        coordinate input (pos + 64) _ _ _ (omega (arith, h)) λ bay.
          coordinate input (pos + 96) _ _ _ (omega (arith, h)) λ bax.
            coordinate input (pos + 128) _ _ _ (omega (arith, h)) λ bby.
              coordinate input (pos + 160) _ _ _ (omega (arith, h))
                λ bbx. points-Agrees ax ay (bn.fq2_new bax bay) (bn.fq2_new bbx bby)

  read_pairs-Agrees :
      (n : ℕ) (input : Bytes) (idx : ℕ)
      → (idx + n) * 192 ≤ length input
      → Agrees (read_pairs bn n input idx) (pairs_at n input idx)
  unfolding read_pairs pairs_at
  read_pairs-Agrees zero input idx h = refl
  read_pairs-Agrees (suc n) input idx h =
      chain-Agrees (read_pair bn input (idx * 192)) (pair_at input (idx * 192)) _ _
        (read_pair-Agrees input (idx * 192) (omega (arith, h)))
        (λ pair.
          chain-Agrees (read_pairs bn n input (idx + 1)) (pairs_at n input (idx + 1)) _ _
            (read_pairs-Agrees n input (idx + 1) (omega (arith, h))) (λ vals. refl))

  module _ (laws : BnLaws bn) where
    -- The fold from the left is the product.
    fold_pairs-product :
        (s : bn.Gt) (vals : List (bn.G1 × bn.G2))
        → fold_pairs bn s vals ≡ bn.gt_mul s (product vals)
    fold_pairs-product s [] = sym (laws.gt_mul_one s)
    fold_pairs-product s ((a, b) ∷ vals) =
        fold_pairs-product (bn.gt_mul s (bn.pairing a b)) vals
        ∙ laws.gt_mul_assoc s (bn.pairing a b) (product vals)

    folded :
        (vals : List (bn.G1 × bn.G2))
        → bn.gt_eq (fold_pairs bn bn.gt_one vals) bn.gt_one ≡ bn.gt_eq (product vals) bn.gt_one
    folded vals =
        ap (λ x. bn.gt_eq x bn.gt_one)
          (fold_pairs-product bn.gt_one vals ∙ laws.gt_one_mul (product vals))

    exceeds_pairs-fits :
        (limit : Option ℕ) (input : Bytes)
        → exceeds_pairs bn limit input ≡ not (fits limit (length input))
    exceeds_pairs-fits none input = refl
    exceeds_pairs-fits (some n) input = ground arith

    -- No pairs are a product of none.
    pair_output-Agrees :
        (input : Bytes)
        → length input % 192 ≡ 0
        → Agrees (pair_output bn input) (
            Options.◌>>=◌
              (pairs_at (length input / 192) input 0)
              λ vals. some (bn.gt_eq (product vals) bn.gt_one))
    unfolding pair_output pairs_at
    pair_output-Agrees [] e = ap some laws.gt_one_eq
    pair_output-Agrees (x ∷ xs) e =
        let n = length (x ∷ xs) / 192 in
        rw (nonempty (length xs)) (
          chain-Agrees (read_pairs bn n (x ∷ xs) 0) (pairs_at n (x ∷ xs) 0) _ _
            (read_pairs-Agrees n (x ∷ xs) 0 (omega arith)) (λ vals. ap some (sym (folded vals))))
      where
        nonempty : (n : ℕ) → (suc n == 0) ≡ false
        nonempty n = ground arith

    -- What is returned of an outcome that agrees with an option.
    settled :
        (o : Outcome PrecompileFailure Bool) (s : Option Bool)
        → Agrees o s
        → ((b : Bool) × (s ≡ some b)
            × ((o >>= λ out. returned_bytes (bit_word out)) ≡ returned_bytes (bit_word b)))
          ⊎ ((text : String) × (s ≡ none)
              × ((o >>= λ out. returned_bytes (bit_word out)) ≡ err (exit_error text)))
    settled (ok b) s h = inl (b, h, refl)
    settled (err e) s (h, text, t) = inr (text, h, ap err t)
    settled panic s h = absurd h

    -- The contract returns 31 zeros and then 1 or 0 for whether the product of the pairings of all
    -- pairs of points in the input is one. It returns one of its errors exactly if the input is
    -- over the limit, has not a multiple of 192 bytes, or holds words that are no points; it never
    -- panics.
    pub pair_run_value :
        (limit : Option ℕ) (input : Bytes)
        → ((b : Bool) × (pairing_check limit input ≡ some b)
            × (pair_run bn limit input
                ≡ returned_bytes (replicate 31 0 ++ (if b then 1 else 0) ∷ [])))
          ⊎ ((text : String) × (pairing_check limit input ≡ none)
              × (pair_run bn limit input ≡ err (exit_error text)))
    unfolding pair_run pairing_check
    pair_run_value limit input = elim (Bool-cases (fits limit (length input))) [
      | inr long ↦ rw (exceeds_pairs-fits limit input, long) (inr (_, refl, refl))
      | inl within ↦ elim (Bool-cases (length input % 192 == 0)) [
        | inr wrong ↦ rw (exceeds_pairs-fits limit input, within, wrong) (inr (_, refl, refl))
        | inl right ↦
            rw (exceeds_pairs-fits limit input, within, right)
              (settled (pair_output bn input) _
                (pair_output-Agrees input ((==_iff (length input % 192) 0).0 right)))
      ]
    ]
