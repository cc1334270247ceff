-- ===== src/Quantities/Others.antt =====
-- What a decision leaves of the other rows: all but the one that is replaced are as they were.
use fresko_universe.Data.{QuantityAssertion, AssertionStatus, Review}
use fresko_universe.Db.{quantity_key, Db}
use fresko_universe.Prelude.{
  ℕ, ◌≡◌, refl, sym, ap, ◌∙◌, subst, ◌≢◌, Option, none, some, Ref, ==-refl, find, find-put,
  find-key, find-put_other,
}
use fresko_universe.Quantities.Activating.{superseded}
use fresko_universe.Quantities.Overtaken.{Overtakes, replaces, Others}

-- The rows but the assertion's own, before and after.
pub record OthersKept (decision : Review) (a : QuantityAssertion) (db db' : Db) : Type 0 where
  pub kept :
      (m : ℕ)
      → m ≢ a.name
      → replaces decision a ≢ some m
      → find quantity_key m db'.assertions ≡ find quantity_key m db.assertions
  pub replaced :
      (m : ℕ)
      → replaces decision a ≡ some m
      → (prior : QuantityAssertion) × (find quantity_key m db.assertions ≡ some prior)
        × (prior.status ≡ AssertionStatus.active)
        × (find quantity_key m db'.assertions ≡ some (superseded a prior))

Overtakes-kept :
    (a : QuantityAssertion) (r : Ref) (db mid : Db) (m : ℕ)
    → Overtakes a r db mid
    → r ≢ some m
    → find quantity_key m mid.assertions ≡ find quantity_key m db.assertions
Overtakes-kept a none db mid m h other = ap (find quantity_key m) h
Overtakes-kept a (some k) db mid m (prior, found, active, w) other =
    ap (find quantity_key m) w
    ∙ find-put_other quantity_key m (superseded a prior) db.assertions
        (λ e. other (ap some (sym (e ∙ find-key quantity_key k db.assertions prior found))))

Overtakes-replaced :
    (a : QuantityAssertion) (r : Ref) (db mid : Db) (m : ℕ)
    → find quantity_key a.name db.assertions ≡ some a
    → a.status ≡ AssertionStatus.review_pending
    → Overtakes a r db mid
    → r ≡ some m
    → (prior : QuantityAssertion) × (find quantity_key m db.assertions ≡ some prior)
      × (prior.status ≡ AssertionStatus.active)
      × (m ≢ a.name)
      × (find quantity_key m mid.assertions ≡ some (superseded a prior))
Overtakes-replaced a none db mid m own waits h e = absurd (cc)
Overtakes-replaced a (some k) db mid m own waits (prior, found, active, w) e =
    let is : k ≡ m = cc in
    let there = subst (λ k. find quantity_key k db.assertions ≡ some prior) is found in
    let named = find-key quantity_key m db.assertions prior there in
    (
      prior,
      there,
      active,
      λ same.
          let two : ◌≡◌ {A = Option QuantityAssertion} (some a) (some prior) =
            sym own ∙ subst (λ k. find quantity_key k db.assertions ≡ some prior) same there in
          absurd (cc),
      subst (λ k. find quantity_key k mid.assertions ≡ some (superseded a prior)) named
          (ap (find quantity_key prior.name) w ∙ rw find-put (rw ==-refl refl)),
    )

pub Others-OthersKept :
    (decision : Review) (a : QuantityAssertion) (db db' : Db)
    → find quantity_key a.name db.assertions ≡ some a
    → a.status ≡ AssertionStatus.review_pending
    → Others decision a db db'
    → OthersKept decision a db db'
Others-OthersKept decision a db db' own waits o = record {
  kept = λ m other free.
      beside m other ∙ Overtakes-kept a (replaces decision a) db o.mid m o.overtakes free;
  replaced = λ m e.
      let (prior, there, active, other, row) =
        Overtakes-replaced a (replaces decision a) db o.mid m own waits o.overtakes e in
      (prior, there, active, beside m other ∙ row);
}
  where
    beside :
        (m : ℕ)
        → m ≢ a.name
        → find quantity_key m db'.assertions ≡ find quantity_key m o.mid.assertions
    beside m other =
        ap (find quantity_key m) o.left
        ∙ find-put_other quantity_key m o.saved o.mid.assertions (λ e. other (e ∙ o.named))
