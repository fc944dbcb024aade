-- ===== src/BlockBuilder/Laws/Prefetch.antt =====
-- The requests that `prefetch` collects.
use evm_executor_rs.Base.{
  ◌≡◌, refl, sym, ◌∙◌, subst, ◌↔◌, true, Bool-cases, inl, inr, Option, none, some, List, [], ◌∷◌,
  arith, ok, err, panic, Outcome, after,
}
use evm_executor_rs.External.Traits.{Address, AccessTuple}
use evm_executor_rs.External.StateDb.{MissingState}
use evm_executor_rs.External.Host.{Host}
use evm_executor_rs.BlockBuilder.Prefetch.{
  FetchState, Fetching, fetch_of, add_fetch, add_some, add_missing, collect,
}

-- Requests match when they are for the same account, which merging keeps.
pub record FetchingLaws {h : Host} (f : Fetching h) : Type 0 where
  pub is_match-iff : (x y : FetchState) → (f.is_match x y ≡ true) ↔ (f.get_addr x ≡ f.get_addr y)
  pub get_addr-merge : (x y : FetchState) → f.get_addr (f.merge x y) ≡ f.get_addr x

module _ {h : Host} (f : Fetching h) where
  -- No request of a list is for the account.
  abbrev pub IsFree : Option Address → List FetchState → Type 0
  IsFree a [] = Unit
  IsFree a (y ∷ ys) = (a ≡ f.get_addr y → ⊥) × IsFree a ys

  -- No two requests are for the same account.
  abbrev pub IsDistinct : List FetchState → Type 0
  IsDistinct [] = Unit
  IsDistinct (x ∷ xs) = IsFree (f.get_addr x) xs × IsDistinct xs

  module _ (laws : FetchingLaws f) where
    add_fetch-IsFree :
        (a : Option Address) (fetch : FetchState) (out : List FetchState)
        → (a ≡ f.get_addr fetch → ⊥)
        → IsFree a out
        → IsFree a (add_fetch f fetch out)
    unfolding add_fetch
    add_fetch-IsFree a fetch [] n free = (n, tt)
    add_fetch-IsFree a fetch (y ∷ ys) n (m, free) = elim (Bool-cases (f.is_match fetch y)) [
      | inl same ↦ rw same (λ e. m (e ∙ laws.get_addr-merge y fetch), free)
      | inr other ↦ rw other (m, add_fetch-IsFree a fetch ys n free)
    ]

    add_fetch-IsDistinct :
        (fetch : FetchState) (out : List FetchState)
        → IsDistinct out
        → IsDistinct (add_fetch f fetch out)
    unfolding add_fetch
    add_fetch-IsDistinct fetch [] d = (tt, tt)
    add_fetch-IsDistinct fetch (y ∷ ys) (free, d) = elim (Bool-cases (f.is_match fetch y)) [
      | inl same ↦ rw same (subst (λ a. IsFree a ys) (sym (laws.get_addr-merge y fetch)) free, d)
      | inr other ↦ rw other (
        add_fetch-IsFree (f.get_addr y) fetch ys
            (λ e. absurd (ground (arith, other, (laws.is_match-iff fetch y).1 (sym e)))) free,
        add_fetch-IsDistinct fetch ys d,
      )
    ]

    add_missing-IsDistinct :
        (item : AccessTuple) (m : MissingState) (out : List FetchState)
        → IsDistinct out
        → IsDistinct (add_missing f item m out)
    unfolding add_missing
    add_missing-IsDistinct item m out d = added (f.get_addr (fetch_of item m))
      where
        added : (o : Option Address) → IsDistinct (add_some f o (fetch_of item m) out)
        added none = d
        added (some a) = add_fetch-IsDistinct (fetch_of item m) out d

    after_check :
        (item : AccessTuple) (items : List AccessTuple) (out : List FetchState)
        (r : Outcome h.db.Error MissingState) (t : h.db.State) {found : List FetchState}
        → ((m : MissingState)
            → (collect f items (add_missing f item m out) t).0 ≡ ok found
            → IsDistinct found)
        → (after (λ m. collect f items (add_missing f item m out)) r t).0 ≡ ok found
        → IsDistinct found
    after_check item items out (ok m) t ih e = ih m e
    after_check item items out (err x) t ih e = absurd (ground (arith, e))
    after_check item items out panic t ih e = absurd (ground (arith, e))

    collect_from-IsDistinct :
        (items : List AccessTuple) (out : List FetchState) (s : h.db.State)
        {found : List FetchState}
        → IsDistinct out
        → (collect f items out s).0 ≡ ok found
        → IsDistinct found
    unfolding collect
    collect_from-IsDistinct [] out s d e = subst IsDistinct (one_list (ok out) refl e) d
      where
        one_list :
            (o : Outcome h.db.Error (List FetchState)) {x y : List FetchState}
            → o ≡ ok x
            → o ≡ ok y
            → x ≡ y
        one_list o p q = ground (arith, p, q)
    collect_from-IsDistinct (item ∷ items) out s d e =
        let r = h.db.check_missing_state item.address item.storage_keys s in
        after_check item items out r.0 r.1
          (λ m.
            collect_from-IsDistinct items (add_missing f item m out) r.1
              (add_missing-IsDistinct item m out d))
          e

    -- The requests that are collected for any list of accesses, from none, are for accounts that
    -- differ from each other, if requests match when they are for the same account, and merging
    -- keeps the account.
    pub collect-IsDistinct :
        (items : List AccessTuple) (s : h.db.State) {found : List FetchState}
        → (collect f items [] s).0 ≡ ok found
        → IsDistinct found
    collect-IsDistinct items s e = collect_from-IsDistinct items [] s tt e
