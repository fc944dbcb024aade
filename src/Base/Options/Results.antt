-- ===== src/Base/Options/Results.antt =====
-- Sequencing of outcomes.
use mathlib.Core.Option.{Option, none, some}
use evm_executor_rs.Base.Outcomes.{Outcome, ok, err, panic}

infixl 5 ◌>>=◌
abbrev pub ◌>>=◌ : {E A B : Type 0} → Outcome E A → (A → Outcome E B) → Outcome E B
ok a >>= f = f a
err e >>= f = err e
panic >>= f = panic

-- `unwrap`, and what panics.
abbrev pub unwrap : {E A : Type 0} → Option A → Outcome E A
unwrap none = panic
unwrap (some a) = ok a
