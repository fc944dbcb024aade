-- ===== src/Base/Bytes/Windows.antt =====
-- Bytes read at places, with zeros beyond the end.
use evm_executor_rs.Base.Lists.{length, get_elem?, take, drop}
use Prim.Native.Nat.{ℕ, zero, suc, ◌+◌, ◌-◌, ◌≤◌, ◌<◌}
use mathlib.Core.Path.{◌≡◌, refl, ap, sym, ◌∙◌}
use mathlib.Core.List.{List, [], ◌∷◌, ◌++◌}
use mathlib.Core.Option.{some}
use native.Mathlib.Omega.{arith}
use evm_executor_rs.Base.Bytes.{
  All, IsByte, byte_at, slice, slice_within, length-drop, be_value, replicate,
}

-- The bytes from a place on, 0 beyond the end.
unfoldable pub window : ℕ → List ℕ → ℕ → List ℕ
window zero xs pos = []
window (suc n) xs pos = byte_at xs pos ∷ window n xs (pos + 1)

pub byte_at_beyond : (xs : List ℕ) (i : ℕ) → length xs ≤ i → byte_at xs i ≡ 0
byte_at_beyond [] i h = refl
byte_at_beyond (x ∷ xs) zero h = absurd (omega arith)
byte_at_beyond (x ∷ xs) (suc i) h = byte_at_beyond xs i (omega arith)

-- Bytes that agree below a place have the same windows there.
pub window_same :
    (n : ℕ) (xs ys : List ℕ) (pos top : ℕ)
    → ((i : ℕ) → i < top → byte_at xs i ≡ byte_at ys i)
    → pos + n ≤ top
    → window n xs pos ≡ window n ys pos
unfolding window
window_same zero xs ys pos top e h = refl
window_same (suc n) xs ys pos top e h =
    rw (e pos (omega arith), window_same n xs ys (pos + 1) top e (omega arith)) refl

pub length-window : (n : ℕ) (xs : List ℕ) (pos : ℕ) → length (window n xs pos) ≡ n
unfolding window
length-window zero xs pos = refl
length-window (suc n) xs pos = omega (arith, length-window n xs (pos + 1))

pub byte_at-IsByte : (xs : List ℕ) (i : ℕ) → All IsByte xs → byte_at xs i < 256
byte_at-IsByte [] i p = omega arith
byte_at-IsByte (x ∷ xs) zero (h, p) = h
byte_at-IsByte (x ∷ xs) (suc i) (h, p) = byte_at-IsByte xs i p

pub window-IsByte : (n : ℕ) (xs : List ℕ) (pos : ℕ) → All IsByte xs → All IsByte (window n xs pos)
unfolding window
window-IsByte zero xs pos p = tt
window-IsByte (suc n) xs pos p = (byte_at-IsByte xs pos p, window-IsByte n xs (pos + 1) p)

byte_at-drop : (xs : List ℕ) (from i : ℕ) → byte_at (drop from xs) i ≡ byte_at xs (from + i)
byte_at-drop xs zero i = ap (byte_at xs) (omega arith)
byte_at-drop [] (suc from) i = refl
byte_at-drop (x ∷ xs) (suc from) i =
    byte_at-drop xs from i
    ∙ ap (byte_at (x ∷ xs)) (let e : suc (from + i) ≡ suc from + i = omega arith in e)

pub window-drop :
    (n : ℕ) (xs : List ℕ) (from pos : ℕ) → window n (drop from xs) pos ≡ window n xs (from + pos)
unfolding window
window-drop zero xs from pos = refl
window-drop (suc n) xs from pos =
    rw (byte_at-drop xs from pos, window-drop n xs from (pos + 1))
      (ap (λ k. byte_at xs (from + pos) ∷ window n xs k) (omega arith))

window_cons :
    (n : ℕ) (x : ℕ) (xs : List ℕ) (pos : ℕ) → window n (x ∷ xs) (suc pos) ≡ window n xs pos
unfolding window
window_cons zero x xs pos = refl
window_cons (suc n) x xs pos = ap (◌∷◌ (byte_at xs pos)) (
    ap (λ k. window n (x ∷ xs) k) (let e : suc pos + 1 ≡ suc (pos + 1) = omega arith in e)
    ∙ window_cons n x xs (pos + 1))

take-window : (n : ℕ) (xs : List ℕ) → n ≤ length xs → take n xs ≡ window n xs 0
unfolding window
take-window zero xs h = refl
take-window (suc n) [] h = absurd (omega arith)
take-window (suc n) (x ∷ xs) h =
    ap (◌∷◌ x) (take-window n xs (omega arith) ∙ sym (window_cons n x xs 0))

-- A slice within the bytes is a window.
pub slice-window :
    (xs : List ℕ) (from n : ℕ)
    → from + n ≤ length xs
    → slice xs from (from + n) ≡ some (window n xs from)
slice-window xs from n h =
    slice_within xs from (from + n) (omega arith) h
    ∙ ap some (
        ap (λ k. take k (drop from xs)) (let e : from + n - from ≡ n = omega arith in e)
        ∙ take-window n (drop from xs) (omega (arith, length-drop from xs))
        ∙ window-drop n xs from 0
        ∙ ap (window n xs) (let e : from + 0 ≡ from = omega arith in e))

-- Behind the end there are zeros.
pub window_beyond :
    (n : ℕ) (xs : List ℕ) (pos : ℕ) → length xs ≤ pos → be_value (window n xs pos) ≡ 0
unfolding window be_value
window_beyond zero xs pos h = refl
window_beyond (suc n) xs pos h =
    rw (byte_at_beyond xs pos h) (omega (arith, window_beyond n xs (pos + 1) (omega arith)))

-- A window is cut in two anywhere.
pub window_append :
    (m n : ℕ) (xs : List ℕ) (pos : ℕ)
    → window (m + n) xs pos ≡ window m xs pos ++ window n xs (pos + m)
unfolding window
window_append zero n xs pos =
    ap (λ k. window k xs pos) (let e : 0 + n ≡ n = omega arith in e)
    ∙ ap (window n xs) (omega arith)
window_append (suc m) n xs pos =
    ap (λ k. window k xs pos) (let e : suc m + n ≡ suc (m + n) = omega arith in e)
    ∙ ap (◌∷◌ (byte_at xs pos)) (
        window_append m n xs (pos + 1)
        ∙ ap (λ k. window m xs (pos + 1) ++ window n xs k) (omega arith))

-- Two byte strings, one behind the other.
byte_at-append_left : (xs ys : List ℕ) (i : ℕ) → i < length xs → byte_at (xs ++ ys) i ≡ byte_at xs i
byte_at-append_left [] ys i h = absurd (omega (arith, h))
byte_at-append_left (x ∷ xs) ys zero h = refl
byte_at-append_left (x ∷ xs) ys (suc i) h = byte_at-append_left xs ys i (omega (arith, h))

byte_at-append_right :
    (xs ys : List ℕ) (i k : ℕ) → k ≡ length xs + i → byte_at (xs ++ ys) k ≡ byte_at ys i
byte_at-append_right [] ys i k e = ap (byte_at ys) (omega (arith, e))
byte_at-append_right (x ∷ xs) ys i zero e = absurd (omega (arith, e))
byte_at-append_right (x ∷ xs) ys i (suc k) e = byte_at-append_right xs ys i k (omega (arith, e))

pub window-append_left :
    (n : ℕ) (xs ys : List ℕ) (pos : ℕ)
    → pos + n ≤ length xs
    → window n (xs ++ ys) pos ≡ window n xs pos
window-append_left n xs ys pos h =
    window_same n (xs ++ ys) xs pos (length xs) (byte_at-append_left xs ys) h

pub window-append_right :
    (n : ℕ) (xs ys : List ℕ) (pos : ℕ) → window n (xs ++ ys) (length xs + pos) ≡ window n ys pos
unfolding window
window-append_right zero xs ys pos = refl
window-append_right (suc n) xs ys pos = rw (byte_at-append_right xs ys pos (length xs + pos) refl) (
    ap (◌∷◌ (byte_at ys pos)) (
      ap (window n (xs ++ ys))
        (let e : length xs + pos + 1 ≡ length xs + (pos + 1) = omega arith in e)
      ∙ window-append_right n xs ys (pos + 1)))

-- Zeros behind the end change nothing.
byte_at-replicate : (n i : ℕ) → byte_at (replicate n 0) i ≡ 0
byte_at-replicate zero i = refl
byte_at-replicate (suc n) zero = refl
byte_at-replicate (suc n) (suc i) = byte_at-replicate n i

pub byte_at-append_zeros : (xs : List ℕ) (n i : ℕ) → byte_at (xs ++ replicate n 0) i ≡ byte_at xs i
byte_at-append_zeros [] n i = byte_at-replicate n i
byte_at-append_zeros (x ∷ xs) n zero = refl
byte_at-append_zeros (x ∷ xs) n (suc i) = byte_at-append_zeros xs n i

pub byte_at-take : (n : ℕ) (xs : List ℕ) (i : ℕ) → i < n → byte_at (take n xs) i ≡ byte_at xs i
byte_at-take zero xs i h = absurd (omega (arith, h))
byte_at-take (suc n) [] i h = refl
byte_at-take (suc n) (x ∷ xs) zero h = refl
byte_at-take (suc n) (x ∷ xs) (suc i) h = byte_at-take n xs i (omega (arith, h))

pub get_elem?-byte_at : (xs : List ℕ) (i : ℕ) → i < length xs → get_elem? xs i ≡ some (byte_at xs i)
get_elem?-byte_at [] i h = absurd (omega (arith, h))
get_elem?-byte_at (x ∷ xs) zero h = refl
get_elem?-byte_at (x ∷ xs) (suc i) h = get_elem?-byte_at xs i (omega (arith, h))
