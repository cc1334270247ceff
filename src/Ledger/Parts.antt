-- ===== src/Ledger/Parts.antt =====
-- What a step keeps of the ledger, by what it writes.
use fresko_universe.Data.{Outward, OutwardStatus}
use fresko_universe.Db.{M, outward_key, Db, ok}
use fresko_universe.Db.Frame.{ended, SameStock}
use fresko_universe.Db.Relates.{Relates}
use fresko_universe.FieldAssertions.Beside.{Beside}
use fresko_universe.FieldAssertions.Sole.{SoleRate, KeepsRates}
use fresko_universe.Ledger.Rows.{RowsKept-refl, put_new-RowsKept, put_moved-RowsKept, RowsKept}
use fresko_universe.Outwards.{outward_taken}
use fresko_universe.Outwards.Inserted.{with_outward}
use fresko_universe.Outwards.Stock.{with_row}
use fresko_universe.Prelude.{ℕ, ◌≡◌, sym, ap, ◌∙◌, subst, ◌≢◌, false, none, some, find, find-key}
use fresko_universe.Quantities.Aside.{Aside}
use fresko_universe.Quantities.Sole.{SoleActive}

-- What a step keeps of the ledger.
pub record LedgerKept (db db' : Db) : Type 0 where
  pub rows : RowsKept db.outwards db'.outwards
  pub sole : SoleActive db.assertions → SoleActive db'.assertions
  pub rates : SoleRate db.field_assertions → SoleRate db'.field_assertions

pub same_ledger :
    (db db' : Db)
    → db'.outwards ≡ db.outwards
    → db'.assertions ≡ db.assertions
    → db'.field_assertions ≡ db.field_assertions
    → LedgerKept db db'
same_ledger db db' p q f = record {
  rows = subst (RowsKept db.outwards) (sym p) (RowsKept-refl db.outwards);
  sole = λ u. rw q u;
  rates = λ u. rw f u;
}

pub unchanged : (db db' : Db) → db ≡ db' → LedgerKept db db'
unchanged db db' p =
    same_ledger db db' (ap (λ (y : Db). y.outwards) (sym p)) (ap (λ (y : Db). y.assertions) (sym p))
      (ap (λ (y : Db). y.field_assertions) (sym p))

pub of_exceptions :
    {A : Type 0} (m : M A) (db db' : Db) (a : A)
    → Relates SameStock m
    → m db ≡ ok (a, db')
    → LedgerKept db db'
of_exceptions m db db' a h e =
    let k = ended m db db' a h e in same_ledger db db' k.outwards k.assertions k.field_assertions

pub of_assertions :
    {A : Type 0} (m : M A) (db db' : Db) (a : A)
    → Relates Aside m
    → (SoleActive db.assertions → SoleActive db'.assertions)
    → m db ≡ ok (a, db')
    → LedgerKept db db'
of_assertions m db db' a h sole e = record {
  rows =
      subst (RowsKept db.outwards) (sym (ended m db db' a h e).outwards)
        (RowsKept-refl db.outwards);
  sole = sole;
  rates = λ u. rw ((ended m db db' a h e).field_assertions) u;
}

pub of_rates :
    {A : Type 0} (m : M A) (db db' : Db) (a : A)
    → Relates Beside m
    → Relates KeepsRates m
    → m db ≡ ok (a, db')
    → LedgerKept db db'
of_rates m db db' a h r e =
    let b = ended m db db' a h e in
    record {
      rows = subst (RowsKept db.outwards) (sym b.outwards) (RowsKept-refl db.outwards);
      sole = λ u. rw (b.assertions) u;
      rates = (ended m db db' a r e).sole;
    }

-- One new Outward.
pub of_added :
    (o : Outward) (db db' : Db)
    → find outward_key db.next_name db.outwards ≡ none
    → o.name ≡ db.next_name
    → outward_taken o db ≡ false
    → with_outward o db ≡ db'
    → LedgerKept db db'
of_added o db db' new name free left = subst (LedgerKept db) left (record {
  rows =
      put_new-RowsKept o db (subst (λ n. find outward_key n db.outwards ≡ none) (sym name) new)
        free;
  sole = λ u. u;
  rates = λ u. u;
})

-- One Outward that moves on.
pub of_moved :
    (old o : Outward) (n : ℕ) (db db' : Db)
    → find outward_key n db.outwards ≡ some old
    → old.status ≢ OutwardStatus.posted
    → o.name ≡ old.name
    → o.facts ≡ old.facts
    → o.source_event_key ≡ old.source_event_key
    → SameStock (with_row db o) db'
    → LedgerKept db db'
of_moved old o n db db' found open_ name facts event left = record {
  rows = subst (RowsKept db.outwards) (sym left.outwards) (
      put_moved-RowsKept old o db.outwards
        (subst (λ m. find outward_key m db.outwards ≡ some old)
          (sym (find-key outward_key n db.outwards old found) ∙ sym name) found)
        open_ facts event);
  sole = λ u. rw (left.assertions) u;
  rates = λ u. rw (left.field_assertions) u;
}
