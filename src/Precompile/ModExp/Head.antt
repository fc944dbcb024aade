-- ===== src/Precompile/ModExp/Head.antt =====
-- What `PrecompileBigModExp::required_gas` reads of the exponent.
use evm_executor_rs.Base.{
  ℕ, ◌+◌, ◌-◌, ◌≤◌, ◌<◌, ◌≡◌, refl, ap, sym, ◌∙◌, Bool, true, false, Bool-cases, inl, inr, none,
  some, arith, length, drop, min, leb, ltb, ltb→lt, leb→le, take, ◌&&◌, ◌⊎◌, if◌then◌else◌,
}
use evm_executor_rs.Base.Options.{◌>>=◌}
use evm_executor_rs.Base.Bytes.{slice, be_value, length-drop}
use evm_executor_rs.External.Traits.{Bytes}
use evm_executor_rs.Precompile.Contract.{Crates}
use evm_executor_rs.Precompile.ModExp.{Lengths, exp_head}
use evm_executor_rs.Base.Bytes.Windows.{window, slice-window, window-drop, window_beyond}
use evm_executor_rs.Precompile.ModExp.Windows.{lengths_of, from_window}

leb-true : (a b : ℕ) → a ≤ b → leb a b ≡ true
leb-true a b h = ground arith

leb-false : (a b : ℕ) → b < a → leb a b ≡ false
leb-false a b h = ground arith

slice_out : (xs : Bytes) (from to : ℕ) → length xs < to → slice xs from to ≡ none
slice_out xs from to h = rw (leb-false to (length xs) h) (and_false (leb from to))
  where
    and_false :
        (b : Bool) → (if b && false then some (take (to - from) (drop from xs)) else none) ≡ none
    and_false true = refl
    and_false false = refl

-- The input behind the header.
abbrev pub rest_length : Bytes → ℕ
rest_length input = length input - 96

-- The exponent's first bytes.
abbrev pub head_of : Bytes → ℕ
head_of input =
    be_value (window (min (lengths_of input).exponent 32) input (96 + (lengths_of input).base))

-- What `exp_head` reads, if it reads anything.
abbrev pub IsReadable : Bytes → Lengths → Type 0
IsReadable input l = (rest_length input ≤ l.base) ⊎ (l.base + min l.exponent 32 ≤ rest_length input)

module _ (c : Crates) where
  pub head_absent :
      (input : Bytes) (l : Lengths)
      → rest_length input ≤ l.base
      → exp_head c.uint_bytes (drop 96 input) l ≡ some 0
  unfolding exp_head
  head_absent input l h =
      rw (leb-true (length (drop 96 input)) l.base (omega (arith, length-drop 96 input))) refl

  head_window :
      (n : ℕ) (input : Bytes) (base : ℕ)
      → n ≤ 32
      → base + n ≤ rest_length input
      → (slice (drop 96 input) base (base + n) >>= λ word. some (c.uint_bytes.from_slice word))
        ≡ some (be_value (window n input (96 + base)))
  head_window n input base small h =
      rw
        (
          slice-window (drop 96 input) base n (omega (arith, length-drop 96 input)),
          window-drop n input 96 base,
          from_window c.uint_bytes n input (96 + base) small,
        )
        refl

  -- All the bytes that count are in the input.
  head_present :
      (input : Bytes) (l : Lengths)
      → l.base < rest_length input
      → l.base + min l.exponent 32 ≤ rest_length input
      → exp_head c.uint_bytes (drop 96 input) l
        ≡ some (be_value (window (min l.exponent 32) input (96 + l.base)))
  unfolding exp_head
  head_present input l some_of all =
      rw (leb-false (length (drop 96 input)) l.base (omega (arith, length-drop 96 input)))
        (elim (Bool-cases (ltb 32 l.exponent)) [
          | inl long ↦
              let e : min l.exponent 32 ≡ 32 = omega (arith, ltb→lt 32 l.exponent long) in
              rw (long, e) (head_window 32 input l.base (omega arith) (omega (arith, e, all)))
          | inr short ↦
              let e : min l.exponent 32 ≡ l.exponent = ground (arith, short) in
              rw (short, e)
                (head_window l.exponent input l.base (omega (arith, e)) (omega (arith, e, all)))
        ])

  -- Some of the bytes that count are not: the slice is out of range.
  pub head_cut :
      (input : Bytes) (l : Lengths)
      → l.base < rest_length input
      → rest_length input < l.base + min l.exponent 32
      → exp_head c.uint_bytes (drop 96 input) l ≡ none
  unfolding exp_head
  head_cut input l some_of cut =
      rw (leb-false (length (drop 96 input)) l.base (omega (arith, length-drop 96 input)))
        (elim (Bool-cases (ltb 32 l.exponent)) [
          | inl long ↦
              rw
                (
                  long,
                  slice_out (drop 96 input) l.base (l.base + 32)
                      (omega (arith, length-drop 96 input, ltb→lt 32 l.exponent long)),
                )
                refl
          | inr short ↦
              let e : min l.exponent 32 ≡ l.exponent = ground (arith, short) in
              rw
                (
                  short,
                  slice_out (drop 96 input) l.base (l.base + l.exponent)
                      (omega (arith, length-drop 96 input, e)),
                )
                refl
        ])

  pub head_readable :
      (input : Bytes)
      → IsReadable input (lengths_of input)
      → exp_head c.uint_bytes (drop 96 input) (lengths_of input) ≡ some (head_of input)
  head_readable input (inl short) =
      let l = lengths_of input in
      head_absent input l short
      ∙ ap some (sym (window_beyond (min l.exponent 32) input (96 + l.base) (omega arith)))
  head_readable input (inr long) =
      let l = lengths_of input in
      elim (Bool-cases (leb (rest_length input) l.base)) [
        | inl short ↦
            head_absent input l (leb→le (rest_length input) l.base short)
            ∙ ap some (
                sym (
                  window_beyond (min l.exponent 32) input (96 + l.base)
                    (omega (arith, leb→le (rest_length input) l.base short))))
        | inr more ↦ head_present input l (ground (arith, more)) long
      ]
