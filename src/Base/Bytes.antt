-- ===== src/Base/Bytes.antt =====
-- Bytes and the numbers that they spell, slices, and zeros, over the native numbers.
pub mod Windows
use evm_executor_rs.Base.Tests.{leb, if◌then◌else◌}
use evm_executor_rs.Base.Lists.{length, get_elem?, take, drop, length-take, length-append}
use Prim.Native.Nat.{ℕ, zero, suc, ◌+◌, ◌-◌, ◌*◌, ◌/◌, ◌%◌, ◌^◌, ◌≤◌, ◌<◌, min}
use mathlib.Core.Path.{◌≡◌, refl, ap, ◌∙◌}
use mathlib.Core.Bool.{◌&&◌}
use mathlib.Core.List.{List, [], ◌∷◌, ◌++◌}
use mathlib.Core.Option.{Option, none, some}
use native.Mathlib.Nat.{pow-suc, mul-le-mul_right}
use native.Mathlib.Omega.{arith}

-- The first byte counts most.
unfoldable pub be_value : List ℕ → ℕ
be_value [] = 0
be_value (x ∷ xs) = x * 256 ^ length xs + be_value xs

-- The first byte counts least.
unfoldable pub le_value : List ℕ → ℕ
le_value [] = 0
le_value (x ∷ xs) = x + 256 * le_value xs

-- The lowest bytes of a number, lowest first.
unfoldable pub le_bytes : ℕ → ℕ → List ℕ
le_bytes zero v = []
le_bytes (suc n) v = (v % 256) ∷ le_bytes n (v / 256)

module _ {ℓ} {A : Type ℓ} where
  -- `&xs[from..to]`, `none` for a panic.
  abbrev pub slice : List A → ℕ → ℕ → Option (List A)
  slice xs from to =
      if leb from to && leb to (length xs) then some (take (to - from) (drop from xs)) else none

  abbrev pub replicate : ℕ → A → List A
  replicate zero a = []
  replicate (suc n) a = a ∷ replicate n a

  abbrev pub All {κ} : (A → Type κ) → List A → Type κ
  All P [] = Unit
  All P (x ∷ xs) = P x × All P xs

abbrev pub IsByte : ℕ → Type 0
IsByte x = x < 256

-- The byte at a place, 0 beyond the end.
abbrev pub byte_at : List ℕ → ℕ → ℕ
byte_at [] i = 0
byte_at (x ∷ xs) zero = x
byte_at (x ∷ xs) (suc i) = byte_at xs i

module _ {ℓ κ} {A : Type ℓ} (P : A → Type κ) where
  pub All-append : (xs ys : List A) → All P xs → All P ys → All P (xs ++ ys)
  All-append [] ys p q = q
  All-append (x ∷ xs) ys (h, p) q = (h, All-append xs ys p q)

  pub All-drop : (n : ℕ) (xs : List A) → All P xs → All P (drop n xs)
  All-drop zero xs p = p
  All-drop (suc n) [] p = tt
  All-drop (suc n) (x ∷ xs) (h, p) = All-drop n xs p

  pub All-take : (n : ℕ) (xs : List A) → All P xs → All P (take n xs)
  All-take zero xs p = tt
  All-take (suc n) [] p = tt
  All-take (suc n) (x ∷ xs) (h, p) = (h, All-take n xs p)

module _ {ℓ} {A : Type ℓ} where
  pub length-drop : (n : ℕ) (xs : List A) → length (drop n xs) ≡ length xs - n
  length-drop zero xs = omega arith
  length-drop (suc n) [] = omega arith
  length-drop (suc n) (x ∷ xs) = omega (arith, length-drop n xs)

  pub length-replicate : (n : ℕ) (a : A) → length (replicate n a) ≡ n
  length-replicate zero a = refl
  length-replicate (suc n) a = omega (arith, length-replicate n a)

  pub length-slice :
      (xs : List A) (from to : ℕ)
      → from ≤ to
      → to ≤ length xs
      → length (take (to - from) (drop from xs)) ≡ to - from
  length-slice xs from to p q =
      omega (arith, length-take (to - from) (drop from xs), length-drop from xs)

-- A slice within the list.
module _ {A : Type 0} where
  pub slice_within :
      (xs : List A) (from to : ℕ)
      → from ≤ to
      → to ≤ length xs
      → slice xs from to ≡ some (take (to - from) (drop from xs))
  slice_within xs from to p q = ground arith

pub length-le_bytes : (n v : ℕ) → length (le_bytes n v) ≡ n
unfolding le_bytes
length-le_bytes zero v = refl
length-le_bytes (suc n) v = omega (arith, length-le_bytes n (v / 256))

pub le_bytes-IsByte : (n v : ℕ) → All IsByte (le_bytes n v)
unfolding le_bytes
le_bytes-IsByte zero v = tt
le_bytes-IsByte (suc n) v = (omega arith, le_bytes-IsByte n (v / 256))

-- The value of bytes is below the power of their number.
pub le_value_bound : (xs : List ℕ) → All IsByte xs → le_value xs < 256 ^ length xs
unfolding le_value
le_value_bound [] p = omega arith
le_value_bound (x ∷ xs) (h, p) = omega (arith, le_value_bound xs p, pow-suc 256 (length xs))

pub be_value_bound : (xs : List ℕ) → All IsByte xs → be_value xs < 256 ^ length xs
unfolding be_value
be_value_bound [] p = omega arith
be_value_bound (x ∷ xs) (h, p) =
    let top : x * 256 ^ length xs ≤ 255 * 256 ^ length xs =
      mul-le-mul_right (256 ^ length xs) (omega arith) in
    omega (arith, be_value_bound xs p, pow-suc 256 (length xs), top)

-- One more byte at the end.
pub be_value-append_one : (xs : List ℕ) (x : ℕ) → be_value (xs ++ x ∷ []) ≡ 256 * be_value xs + x
unfolding be_value
be_value-append_one [] x = omega arith
be_value-append_one (y ∷ xs) x =
    rw (length-append xs (x ∷ []), be_value-append_one xs x, next xs)
      (omega (arith, spread y (256 ^ length xs) (be_value xs) x))
  where
    next : (xs : List ℕ) → 256 ^ (length xs + 1) ≡ 256 * 256 ^ length xs
    next xs = ap (λ m. 256 ^ m) one_more ∙ pow-suc 256 (length xs) ∙ omega arith
      where
        one_more : length xs + 1 ≡ suc (length xs)
        one_more = omega arith

    spread : (y p b x : ℕ) → y * (256 * p) + (256 * b + x) ≡ 256 * (y * p + b) + x
    spread y p b x = grind arith
