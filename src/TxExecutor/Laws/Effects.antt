-- ===== src/TxExecutor/Laws/Effects.antt =====
-- The effect of an action of the executor on what matters of its state, the ledger and the gas
-- left, and how the effects of its parts make up the effect of the whole.
use evm_executor_rs.Base.{
  ℕ, ◌≡◌, refl, subst, ◌∙◌, ap, Bool, true, false, Option, none, some, arith, if◌then◌else◌,
  Outcome, ok, err, panic, pure, throw, or_panic, after, ◌>>=◌,
}
use evm_executor_rs.External.Host.{Host}
use evm_executor_rs.External.StateDb.{StateDbLaws, Ledger, Reads, Writes}
use evm_executor_rs.Types.{ExecuteError}
use evm_executor_rs.TxExecutor.Machine.{Vars, Exec, on_db, on_proxy, map_err}
use evm_executor_rs.Base.{Action, Keeps}

pub record Books : Type 0 where
  pub ledger : Ledger
  pub gas : ℕ

abbrev pub on_ledger : (Ledger → Ledger) → Books → Books
on_ledger f b = record b { ledger = f b.ledger }

module _ (h : Host) (laws : StateDbLaws h.db) where
  abbrev pub books : Vars h → Books
  books vars = record { ledger = laws.view vars.state_db; gas = vars.gas }

  -- When `m` succeeds with a value, the books have changed as stated for the value.
  pub record Does {A : Type 0} (m : Exec h A) (change : A → Books → Books) : Type 0 where
    pub effect :
        (vars : Vars h) (a : A) → (m vars).0 ≡ ok a → books (m vars).1 ≡ change a (books vars)

-- When `m` succeeds, its value is `c`.
pub record Returns {h : Host} {A : Type 0} (m : Exec h A) (c : A) : Type 0 where
  pub value : (vars : Vars h) (a : A) → (m vars).0 ≡ ok a → a ≡ c

pub pure-Returns : {h : Host} {A : Type 0} (c : A) → Returns {h = h} (pure c) c
pure-Returns c = record { value = λ vars a e. ground (arith, e) }

pub map_err-eq-ok : {E A : Type 0} (r : Outcome E A) (a : A) → map_err r ≡ ok a → r ≡ ok a
map_err-eq-ok (ok b) a e = ground (arith, e)
map_err-eq-ok (err x) a e = absurd (ground (arith, e))
map_err-eq-ok panic a e = absurd (ground (arith, e))

pub after_ok :
    {S E A B : Type 0} (k : A → Action S E B) (r : Outcome E A) (t : S) (b : B)
    → (after k r t).0 ≡ ok b
    → (a : A) × (r ≡ ok a)
after_ok k (ok a) t b e = (a, refl)
after_ok k (err x) t b e = absurd (ground (arith, e))
after_ok k panic t b e = absurd (ground (arith, e))

module _ {h : Host} {A B : Type 0} where
  after-Returns :
      (k : A → Exec h B) {c : B} (r : Outcome (ExecuteError h.db.Error) A) (t : Vars h) (b : B)
      → ((a : A) → Returns (k a) c)
      → (after k r t).0 ≡ ok b
      → b ≡ c
  after-Returns k (ok a) t b l e = (l a).value t b e
  after-Returns k (err x) t b l e = absurd (ground (arith, e))
  after-Returns k panic t b l e = absurd (ground (arith, e))

  pub bind-Returns :
      (m : Exec h A) {k : A → Exec h B} {c : B} → ((a : A) → Returns (k a) c) → Returns (m >>= k) c
  bind-Returns m {k} l = record { value = λ vars b e. after-Returns k (m vars).0 (m vars).1 b l e }

module _ {h : Host} {laws : StateDbLaws h.db} {A : Type 0} where
  -- An action that leaves the state alone.
  pub pure-Does : (a : A) → Does h laws (pure a) (λ _ b. b)
  pure-Does a = record { effect = λ vars x e. refl }

  -- An action that always fails.
  pub throw-Does :
      (x : ExecuteError h.db.Error) (change : A → Books → Books) → Does h laws (throw x) change
  throw-Does x change = record { effect = λ vars a e. absurd (ground (arith, e)) }

  -- An effect written in another way.
  pub Does-eq : {m : Exec h A} {f g : A → Books → Books} → f ≡ g → Does h laws m f → Does h laws m g
  Does-eq {m} p d = subst (λ f. Does h laws m f) p d

  -- A test picks one of two actions that do the same.
  pub if-Does :
      {m k : Exec h A} {f : A → Books → Books} (c : Bool)
      → Does h laws m f
      → Does h laws k f
      → Does h laws (if c then m else k) f
  if-Does true d e = d
  if-Does false d e = e

  -- What is unwrapped was there.
  pub or_panic-Does :
      {B : Type 0} (o : Option A) (k : A → Exec h B) {g : B → Books → Books}
      → ((a : A) → o ≡ some a → Does h laws (k a) g)
      → Does h laws (or_panic o >>= k) g
  or_panic-Does none k l = record { effect = λ vars b e. absurd (ground (arith, e)) }
  or_panic-Does (some a) k l = l a refl

  module _ {B : Type 0} where
    after-Does :
        (k : A → Exec h B) {g : B → Books → Books} (r : Outcome (ExecuteError h.db.Error) A)
        (t : Vars h) (b : B)
        → ((a : A) → Does h laws (k a) g)
        → (after k r t).0 ≡ ok b
        → books h laws (after k r t).1 ≡ g b (books h laws t)
    after-Does k (ok a) t b l e = (l a).effect t b e
    after-Does k (err x) t b l e = absurd (ground (arith, e))
    after-Does k panic t b l e = absurd (ground (arith, e))

    -- One action behind another.
    pub bind-Does :
        {m : Exec h A} {k : A → Exec h B} {f : Books → Books} {g : B → Books → Books}
        → Does h laws m (λ _. f)
        → ((a : A) → Does h laws (k a) g)
        → Does h laws (m >>= k) (λ b x. g b (f x))
    bind-Does {m} {k} {f} {g} d l = record {
      effect = λ vars b e.
          let (a, ea) = after_ok k (m vars).0 (m vars).1 b e in
          after-Does k (m vars).0 (m vars).1 b l e ∙ ap (g b) (d.effect vars a ea);
    }

  -- What an action does in terms of a value that it then returns.
  pub Does-returned :
      {m : Exec h A} {c : A} {f : A → Books → Books}
      → Does h laws m (λ _. f c)
      → Returns m c
      → Does h laws m f
  Does-returned {m} {c} {f} d r = record {
    effect = λ vars a e. rw (r.value vars a e) (d.effect vars a e);
  }

  -- Reading the database, and running the interpreter.
  pub on_db-Reads :
      (m : Action h.db.State h.db.Error A) (value : Ledger → A)
      → Reads laws.view m value
      → Does h laws (on_db h m) (λ _ b. b)
  on_db-Reads m value r = record {
    effect = λ vars a e. ap (λ l. record { ledger = l; gas = vars.gas }) (r vars.state_db).0;
  }

  pub on_proxy-Keeps :
      (m : Action h.db.State (ExecuteError h.db.Error) A)
      → Keeps laws.view m
      → Does h laws (on_proxy h m) (λ _ b. b)
  on_proxy-Keeps m r = record {
    effect = λ vars a e. ap (λ l. record { ledger = l; gas = vars.gas }) (r vars.state_db);
  }

-- Writing to the database.
pub on_db-Writes :
    {h : Host} {laws : StateDbLaws h.db} (m : Action h.db.State h.db.Error (Unit {0}))
    (change : Ledger → Ledger)
    → Writes laws.view m change
    → Does h laws (on_db h m) (λ _. on_ledger change)
on_db-Writes m change w = record {
  effect = λ vars a e.
      ap (λ l. record { ledger = l; gas = vars.gas })
        (w vars.state_db (map_err-eq-ok (m vars.state_db).0 a e));
}
