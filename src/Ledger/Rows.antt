-- ===== src/Ledger/Rows.antt =====
-- What a step of the ledger keeps of the Outwards.
use fresko_universe.Data.{OutwardFacts, Outward, OutwardStatus}
use fresko_universe.Db.{outward_key, Db}
use fresko_universe.Outwards.{outward_taken}
use fresko_universe.Prelude.{
  ℕ, ◌≡◌, sym, ap, ◌∙◌, subst, ◌≢◌, inl, inr, Bool, true, false, ◌&&◌, ◌||◌, none, some, List,
  arith, ◌==◌, Ref, is_set, ◌=?◌, ==-eq, ==-refl, Bool-cases, =?-refl, Unshared, put-Unshared,
  kept-NoneElsewhere, find, put, find-put, any-find,
}

abbrev pub event_key : Outward → Ref
event_key o = some o.source_event_key

abbrev pub reversed_key : Outward → Ref
reversed_key o = o.reverses_outward

-- A posted Outward stays as it is; no two Outwards come to share a source event, nor to reverse
-- one Outward.
pub record RowsKept (rows rows' : List Outward) : Type 0 where
  pub posted :
      (n : ℕ) (o : Outward)
      → find outward_key n rows ≡ some o
      → o.status ≡ OutwardStatus.posted
      → find outward_key n rows' ≡ some o
  pub events : Unshared outward_key event_key rows → Unshared outward_key event_key rows'
  pub reversals : Unshared outward_key reversed_key rows → Unshared outward_key reversed_key rows'

pub RowsKept-refl : (rows : List Outward) → RowsKept rows rows
RowsKept-refl rows = record { posted = λ n o f p. f; events = λ u. u; reversals = λ u. u }

pub RowsKept-trans : (x y z : List Outward) → RowsKept x y → RowsKept y z → RowsKept x z
RowsKept-trans x y z h k = record {
  posted = λ n o f p. k.posted n o (h.posted n o f p) p;
  events = λ u. k.events (h.events u);
  reversals = λ u. k.reversals (h.reversals u);
}

-- A write under a name that has no posted row.
put-posted :
    (r : Outward) (rows : List Outward)
    → ((o : Outward) → find outward_key r.name rows ≡ some o → o.status ≢ OutwardStatus.posted)
    → (n : ℕ) (o : Outward) → find outward_key n rows ≡ some o
    → o.status ≡ OutwardStatus.posted
    → find outward_key n (put outward_key r rows) ≡ some o
put-posted r rows free n o f p = elim (Bool-cases (r.name == n)) [
  | inl e ↦
      absurd (free o (subst (λ m. find outward_key m rows ≡ some o) (sym (==-eq r.name n e)) f) p)
  | inr e ↦ rw find-put (rw e f)
]

-- The row of a new Outward whose unique columns are free.
pub put_new-RowsKept :
    (o : Outward) (db : Db)
    → find outward_key o.name db.outwards ≡ none
    → outward_taken o db ≡ false
    → RowsKept db.outwards (put outward_key o db.outwards)
unfolding outward_taken
put_new-RowsKept o db new free = record {
  posted = put-posted o db.outwards (λ x f p. (let k = sym new ∙ f in absurd (cc)));
  events = put-Unshared outward_key event_key o db.outwards (λ s n y f e.
      (let k = any-find outward_key taken db.outwards n y free f in absurd (event y e k)));
  reversals = put-Unshared outward_key reversed_key o db.outwards (λ s n y f e.
      (let k = any-find outward_key taken db.outwards n y free f in absurd (reversal y s e k)));
}
  where
    taken : Outward → Bool
    taken x =
        x.source_event_key == o.source_event_key
        || (is_set o.reverses_outward && x.reverses_outward =? o.reverses_outward)

    event : (y : Outward) → event_key o ≡ event_key y → taken y ≡ false → ⊥
    event y e k =
        let p : o.source_event_key ≡ y.source_event_key = (let q = e in cc) in
        let j = (rw (p, ==-refl y.source_event_key) at k) in absurd (cc)

    reversal :
        (y : Outward)
        → is_set o.reverses_outward ≡ true
        → o.reverses_outward ≡ y.reverses_outward
        → taken y ≡ false
        → ⊥
    reversal y s e k =
        let t : (y.reverses_outward =? o.reverses_outward) ≡ true =
          rw e (=?-refl y.reverses_outward) in
        let j = (rw (s, t) at k) in (ground arith)

-- The row of a stored Outward that is not posted, with its payload and event as they were.
pub put_moved-RowsKept :
    (old o : Outward) (rows : List Outward)
    → find outward_key o.name rows ≡ some old
    → old.status ≢ OutwardStatus.posted
    → o.facts ≡ old.facts
    → o.source_event_key ≡ old.source_event_key
    → RowsKept rows (put outward_key o rows)
put_moved-RowsKept old o rows found open_ facts event = record {
  posted = put-posted o rows (λ x f p. open_ (let k = sym found ∙ f in cc));
  events = λ u.
      put-Unshared outward_key event_key o rows
        (kept-NoneElsewhere outward_key event_key o old rows u found (ap some event)) u;
  reversals = λ u.
      put-Unshared outward_key reversed_key o rows
        (kept-NoneElsewhere outward_key reversed_key o old rows u found
          (ap (λ (f : OutwardFacts). f.reverses_outward) facts))
        u;
}
