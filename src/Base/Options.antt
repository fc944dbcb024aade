-- ===== src/Base/Options.antt =====
-- Sequencing for code that may panic (`Option`), and for code that may fail too (`Outcome`) and
-- keeps no state.
pub mod Results
use mathlib.Core.Path.{◌≡◌, refl}
use mathlib.Core.Option.{Option, none, some}
use native.Mathlib.Omega.{arith}

infixl 5 ◌>>=◌
abbrev pub ◌>>=◌ {ℓ} : {A B : Type ℓ} → Option A → (A → Option B) → Option B
none >>= f = none
some a >>= f = f a

-- The parts of a chain that does not panic.
pub >>=-eq-some {ℓ} :
    {A B : Type ℓ} (o : Option A) (f : A → Option B) {b : B}
    → (o >>= f) ≡ some b
    → (a : A) × (o ≡ some a) × (f a ≡ some b)
>>=-eq-some none f e = cc
>>=-eq-some (some a) f e = (a, refl, e)
