-- ===== src/TxExecutor/Laws/Needs.antt =====
-- What must have held of the books before, when an action of the executor succeeds.
use evm_executor_rs.Base.{
  ◌≡◌, refl, subst, ap, Option, none, some, arith, Outcome, ok, err, panic, or_panic, Action, after,
  ◌>>=◌,
}
use evm_executor_rs.External.Host.{Host}
use evm_executor_rs.External.StateDb.{StateDbLaws, Ledger, Reads}
use evm_executor_rs.Types.{ExecuteError}
use evm_executor_rs.TxExecutor.Machine.{Vars, Exec, on_db}
use evm_executor_rs.TxExecutor.Laws.Effects.{Books, Does, books, after_ok, map_err-eq-ok}

-- When `m` succeeds, `P` held of the books before.
pub record Needs (h : Host) (laws : StateDbLaws h.db) {A : Type 0} (m : Exec h A)
    (P : Books → Type 0) : Type 0 where
  pub held : (vars : Vars h) (a : A) → (m vars).0 ≡ ok a → P (books h laws vars)

pub Needs-mono :
    {h : Host} {laws : StateDbLaws h.db} {A : Type 0} {m : Exec h A} {P Q : Books → Type 0}
    → ((b : Books) → P b → Q b)
    → Needs h laws m P
    → Needs h laws m Q
Needs-mono {h} {laws} f n = record { held = λ vars a e. f (books h laws vars) (n.held vars a e) }

module _ {h : Host} {laws : StateDbLaws h.db} {A B : Type 0} where
  -- What the first of two actions needs.
  pub first-Needs :
      {m : Exec h A} (k : A → Exec h B) {P : Books → Type 0}
      → Needs h laws m P
      → Needs h laws (m >>= k) P
  first-Needs {m} k n = record {
    held = λ vars b e. let (a, ea) = after_ok k (m vars).0 (m vars).1 b e in n.held vars a ea;
  }

  after-Needs :
      (k : A → Exec h B) {P : Books → Type 0} (r : Outcome (ExecuteError h.db.Error) A) (t : Vars h)
      (b : B)
      → ((a : A) → Needs h laws (k a) P)
      → (after k r t).0 ≡ ok b
      → P (books h laws t)
  after-Needs k (ok a) t b l e = (l a).held t b e
  after-Needs k (err x) t b l e = absurd (ground (arith, e))
  after-Needs k panic t b l e = absurd (ground (arith, e))

  -- What the second needs, seen from before the first.
  pub second-Needs :
      {m : Exec h A} {k : A → Exec h B} {f : Books → Books} {P : Books → Type 0}
      → Does h laws m (λ _. f)
      → ((a : A) → Needs h laws (k a) P)
      → Needs h laws (m >>= k) (λ b. P (f b))
  second-Needs {m} {k} {f} {P} d l = record {
    held = λ vars b e.
        let (a, ea) = after_ok k (m vars).0 (m vars).1 b e in
        subst P (d.effect vars a ea) (after-Needs k (m vars).0 (m vars).1 b l e);
  }

  pub or_panic-Needs :
      (o : Option A) (k : A → Exec h B) {P : Books → Type 0}
      → ((a : A) → o ≡ some a → Needs h laws (k a) P)
      → Needs h laws (or_panic o >>= k) P
  or_panic-Needs none k l = record { held = λ vars b e. absurd (ground (arith, e)) }
  or_panic-Needs (some a) k l = l a refl

  -- What an action needs that goes on with a value read from the database.
  pub read-Needs :
      (m : Action h.db.State h.db.Error A) (value : Ledger → A) (k : A → Exec h B)
      (Q : A → Books → Type 0)
      → Reads laws.view m value
      → ((a : A) → Needs h laws (k a) (Q a))
      → Needs h laws (on_db h m >>= k) (λ b. Q (value b.ledger) b)
  read-Needs m value k Q r l = record {
    held = λ vars b e.
        let t : Vars h = (on_db h m vars).1 in
        let (a, ea) = after_ok k (on_db h m vars).0 t b e in
        let kept : books h laws t ≡ books h laws vars =
          ap (λ l. record { ledger = l; gas = vars.gas }) (r vars.state_db).0 in
        let read : a ≡ value (laws.view vars.state_db) =
          (r vars.state_db).1 a (map_err-eq-ok (m vars.state_db).0 a ea) in
        let went_on : (k a t).0 ≡ ok b = subst (λ o. (after k o t).0 ≡ ok b) ea e in
        subst (λ v. Q v (books h laws vars)) read (subst (Q a) kept ((l a).held t b went_on));
  }
