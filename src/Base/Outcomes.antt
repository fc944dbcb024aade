-- ===== src/Base/Outcomes.antt =====
-- The outcome of a Rust function that returns `Result` and may panic, and the actions on a state
-- that the program's methods are. The state comes back after an error too, since what was written
-- stays written.
use mathlib.Core.Path.{◌≡◌, refl, ◌∙◌}
use mathlib.Core.Logic.{◌⊎◌, inl, inr}
use mathlib.Core.Option.{Option, none, some}
use native.Mathlib.Omega.{arith}

pub data Outcome (E A : Type 0) : Type 0 where
  ok : A → Outcome E A
  err : E → Outcome E A
  panic : Outcome E A

abbrev pub Action : Type 0 → Type 0 → Type 0 → Type 0
Action S E A = S → Outcome E A × S

module _ {S E A : Type 0} where
  abbrev pub pure : A → Action S E A
  pure a s = (ok a, s)

  -- `return Err(e)`
  abbrev pub throw : E → Action S E A
  throw e s = (err e, s)

  -- `unwrap`, and arithmetic that panics.
  abbrev pub or_panic : Option A → Action S E A
  or_panic none s = (panic, s)
  or_panic (some a) s = (ok a, s)

-- An outcome is a value, an error or a panic.
pub outcome_cases :
    {E A : Type 0} (r : Outcome E A)
    → ((a : A) × (r ≡ ok a)) ⊎ (((x : E) × (r ≡ err x)) ⊎ (r ≡ panic))
outcome_cases (ok a) = inl (a, refl)
outcome_cases (err x) = inr (inl (x, refl))
outcome_cases panic = inr (inr refl)

-- What follows an action, once that has ended.
abbrev pub after : {S E A B : Type 0} → (A → Action S E B) → Outcome E A → Action S E B
after f (ok a) s = f a s
after f (err e) s = (err e, s)
after f panic s = (panic, s)

infixl 5 ◌>>=◌ ◌>>◌
abbrev pub ◌>>=◌ : {S E A B : Type 0} → Action S E A → (A → Action S E B) → Action S E B
◌>>=◌ m f s = after f (m s).0 (m s).1

abbrev pub ◌>>◌ : {S E B : Type 0} → Action S E (Unit {0}) → Action S E B → Action S E B
m >> k = m >>= λ _. k

-- The parts of a successful run of two actions.
after-eq-ok :
    {S E A B : Type 0} (f : A → Action S E B) (r : Outcome E A) (t : S) {s' : S} {b : B}
    → after f r t ≡ (ok b, s')
    → (a : A) × (r ≡ ok a) × (f a t ≡ (ok b, s'))
after-eq-ok f (ok a) t h = (a, refl, h)
after-eq-ok f (err x) t h = absurd (ground (arith, h))
after-eq-ok f panic t h = absurd (ground (arith, h))

pub >>=-eq-ok :
    {S E A B : Type 0} (m : Action S E A) (f : A → Action S E B) {s s' : S} {b : B}
    → (m >>= f) s ≡ (ok b, s')
    → (a : A) × ((m s).0 ≡ ok a) × (f a (m s).1 ≡ (ok b, s'))
>>=-eq-ok m f {s} h = after-eq-ok f (m s).0 (m s).1 h

-- An action that leaves a view of the state alone, however it ends.
abbrev pub Keeps : {S E A V : Type 0} → (S → V) → Action S E A → Type 0
Keeps {S} view m = (s : S) → view (m s).1 ≡ view s

module _ {S E A B V : Type 0} (view : S → V) where
  after-Keeps :
      (f : A → Action S E B) (r : Outcome E A) (t : S)
      → ((a : A) → Keeps view (f a))
      → view (after f r t).1 ≡ view t
  after-Keeps f (ok a) t l = l a t
  after-Keeps f (err x) t l = refl
  after-Keeps f panic t l = refl

  -- A sequence of actions that leave a view alone leaves it alone.
  pub bind-Keeps :
      (m : Action S E A) (f : A → Action S E B)
      → Keeps view m
      → ((a : A) → Keeps view (f a))
      → Keeps view (m >>= f)
  bind-Keeps m f k l s = after-Keeps f (m s).0 (m s).1 l ∙ k s

-- What holds of the value of an action that succeeds.
abbrev pub Yields : {S E A : Type 0} → Action S E A → (A → Type 0) → Type 0
Yields {S} {E} {A} m Q = (s : S) (a : A) → (m s).0 ≡ ok a → Q a

module _ {S E A B : Type 0} where
  after-Yields :
      (f : A → Action S E B) (Q : B → Type 0) (r : Outcome E A) (t : S) (b : B)
      → ((a : A) → r ≡ ok a → Yields (f a) Q)
      → (after f r t).0 ≡ ok b
      → Q b
  after-Yields f Q (ok a) t b l e = l a refl t b e
  after-Yields f Q (err x) t b l e = absurd (ground (arith, e))
  after-Yields f Q panic t b l e = absurd (ground (arith, e))

  -- The value of a sequence is that of its second action, which may use what the first yields.
  pub bind-Yields :
      (m : Action S E A) (f : A → Action S E B) (P : A → Type 0) (Q : B → Type 0)
      → Yields m P
      → ((a : A) → P a → Yields (f a) Q)
      → Yields (m >>= f) Q
  bind-Yields m f P Q k l s b e = after-Yields f Q (m s).0 (m s).1 b (λ a ea. l a (k s a ea)) e

  pub second-Yields :
      (m : Action S E A) (f : A → Action S E B) (Q : B → Type 0)
      → ((a : A) → Yields (f a) Q)
      → Yields (m >>= f) Q
  second-Yields m f Q l s b e = after-Yields f Q (m s).0 (m s).1 b (λ a _. l a) e
