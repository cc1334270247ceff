-- ===== src/ContainerDoc/Kept.antt =====
-- What a save of a stored Container keeps: its status moves along the table, its lots and its
-- total cover what is sold and what is posted, and it is reconciled only through the gate.
use fresko_universe.Ats.{lots_of, lot_of, approved_sold}
use fresko_universe.CloseGate.{assert_container_can_fully_reconcile}
use fresko_universe.ContainerDoc.{
  has_lots, check_each, validate_inward_vs_posted_physical, sold_of_row, validate_removed_lot,
  validate_sold_lot, validate_inward_vs_approved_sold, validate_container_transition,
  is_fully_reconciled, validate_close_gate, validate_container, save_container,
}
use fresko_universe.Data.{Lot, Container, is_container_status, ContainerStatus}
use fresko_universe.Db.{
  Check, pass, throw_if, container_key, throw_if-pass, then_check-pass, after_check, Db, ok, Error,
}
use fresko_universe.Physical.{posted_lines, posted_physical_quantities, posted_total, tolerance}
use fresko_universe.Physical.Ledger.{net_of_all, posted_physical_quantities-net}
use fresko_universe.Policy.{container_may_follow}
use fresko_universe.Prelude.{
  ℕ, ◌≡◌, refl, sym, ◌∙◌, subst, ◌⊎◌, inl, inr, Bool, true, ◌&&◌, not, none, some, List, [], ◌∷◌,
  arith, if◌then◌else◌, Ref, ◌=?◌, ==-refl, not-false, =?-eq, Bool-cases, find_by, find, put,
  find-put,
}
use fresko_universe.Prelude.Int.{◌+ℤ◌, ◌≤ℤ◌, ltb_ℤ, ltb_ℤ-false}

check_each-find :
    {A : Type 0} (f : A → Check) (p : A → Bool) (xs : List A) (x : A)
    → check_each f xs ≡ pass
    → find_by p xs ≡ some x
    → (f x ≡ pass) × (p x ≡ true)
unfolding check_each find_by
check_each-find f p [] x h e = absurd (cc)
check_each-find f p (y ∷ ys) x h e =
    let (first, rest) = then_check-pass (f y) (check_each f ys) h in
    elim (Bool-cases (p y)) [
      | inl q ↦ let g = (rw q at e) in let s : y ≡ x = cc in (rw (← s) first, rw (← s) q)
      | inr q ↦ check_each-find f p ys x rest (rw q at e)
    ]

-- What holds of the Container after its save.
pub record ContainerKept (old c : Container) (db db' : Db) : Type 0 where
  pub stored : find container_key c.name db'.containers ≡ some c
  pub status : (old.status ≡ c.status) ⊎ (container_may_follow old.status c.status ≡ true)
  pub lot_sold :
      (lot : ℕ) (l : Lot)
      → lot_of c.name lot db' ≡ some l
      → approved_sold c.name (some lot) db' ≤ℤ l.inward_qty +ℤ tolerance
  pub sold : has_lots c.lots ≡ true → approved_sold c.name none db' ≤ℤ c.inward_qty +ℤ tolerance
  pub posted : net_of_all (posted_lines c.name db'.outwards) ≤ℤ c.inward_qty +ℤ tolerance
  pub reconciled :
      is_fully_reconciled c.closing_status ≡ true
      → (c.status ≡ ContainerStatus.closed)
        × (assert_container_can_fully_reconcile c.name c.company db ≡ pass)

is_container_status-eq : (s t : ContainerStatus) → is_container_status s t ≡ true → s ≡ t
is_container_status-eq s t h = ground arith

transition-kept :
    (old c : Container)
    → validate_container_transition (some old) c ≡ pass
    → (old.status ≡ c.status) ⊎ (container_may_follow old.status c.status ≡ true)
unfolding validate_container_transition
transition-kept old c h = elim (Bool-cases (is_container_status old.status c.status)) [
  | inl e ↦ inl (is_container_status-eq old.status c.status e)
  | inr e ↦
      let g = (rw (e, validate_container_transition) at h) in
      inr (not-false _ (throw_if-pass _ Error.invalid_transition g))
]

gate-kept :
    (db : Db) (c : Container)
    → validate_close_gate db c ≡ pass
    → is_fully_reconciled c.closing_status ≡ true
    → (c.status ≡ ContainerStatus.closed)
      × (assert_container_can_fully_reconcile c.name c.company db ≡ pass)
unfolding validate_close_gate
gate-kept db c h e =
    let g = (rw (e, validate_close_gate) at h) in
    let (closed, gate) =
      then_check-pass
        (throw_if (not (is_container_status c.status ContainerStatus.closed)) Error.not_closed) _
        g in
    (
      is_container_status-eq c.status ContainerStatus.closed
          (not-false _ (throw_if-pass _ Error.not_closed closed)),
      gate,
    )

posted-kept :
    (db : Db) (old c : Container)
    → validate_inward_vs_posted_physical db (some old) c ≡ pass
    → net_of_all (posted_lines c.name db.outwards) ≤ℤ c.inward_qty +ℤ tolerance
unfolding validate_inward_vs_posted_physical
posted-kept db old c h =
    let total = posted_total (posted_physical_quantities c.name db) in
    let (h2, uom) =
      then_check-pass _
        (throw_if (ltb_ℤ tolerance total && not (c.uom =? old.uom)) Error.uom_has_posted) h in
    let (lots, below) =
      then_check-pass _ (throw_if (ltb_ℤ (c.inward_qty +ℤ tolerance) total) Error.below_posted)
        h2 in
    rw (← (posted_physical_quantities-net c.name db).1)
      (ltb_ℤ-false (c.inward_qty +ℤ tolerance) total (throw_if-pass _ Error.below_posted below))

lot-covered :
    (db : Db) (c : Container) (lot : ℕ) (l : Lot)
    → check_each (validate_sold_lot db c) c.lots ≡ pass
    → find_by (λ l. l.lot_no =? some lot) c.lots ≡ some l
    → approved_sold c.name (some lot) db ≤ℤ l.inward_qty +ℤ tolerance
unfolding validate_sold_lot sold_of_row
lot-covered db c lot l h e =
    let (covered, is) = check_each-find (validate_sold_lot db c) _ c.lots l h e in
    let number : l.lot_no ≡ some lot = =?-eq l.lot_no (some lot) is in
    subst (λ n. approved_sold c.name n db ≤ℤ l.inward_qty +ℤ tolerance) number
      (ltb_ℤ-false (l.inward_qty +ℤ tolerance) (approved_sold c.name l.lot_no db)
        (throw_if-pass _ Error.below_sold covered))

sold-kept :
    (db : Db) (old c : Container)
    → validate_inward_vs_approved_sold db (some old) c ≡ pass
    → (check_each (validate_sold_lot db c) c.lots ≡ pass)
      × (has_lots c.lots ≡ true → approved_sold c.name none db ≤ℤ c.inward_qty +ℤ tolerance)
unfolding validate_inward_vs_approved_sold
sold-kept db old c h =
    let (h2, total) =
      then_check-pass _
        (if has_lots c.lots
          then throw_if (ltb_ℤ (c.inward_qty +ℤ tolerance) (approved_sold c.name none db))
              Error.below_sold
          else throw_if (ltb_ℤ tolerance (approved_sold c.name none db)) Error.lot_has_sold)
        h in
    let (removed, lots) =
      then_check-pass (check_each (validate_removed_lot db c) old.lots)
        (check_each (validate_sold_lot db c) c.lots) h2 in
    (
      lots,
      λ e.
          ltb_ℤ-false (c.inward_qty +ℤ tolerance) (approved_sold c.name none db)
            (throw_if-pass _ Error.below_sold (rw e at total)),
    )

stored_row :
    (db : Db) (c : Container)
    → find container_key c.name (put container_key c db.containers) ≡ some c
stored_row db c = rw (find-put container_key c.name c db.containers, ==-refl c.name) refl

lot_of-written :
    (db : Db) (c : Container) (lot : ℕ)
    → lot_of c.name lot (record db { containers = put container_key c db.containers })
      ≡ find_by (λ l. l.lot_no =? some lot) c.lots
unfolding lot_of lots_of
lot_of-written db c lot = rw (lot_of, lots_of, stored_row db c) refl

validate_container-Kept :
    (companies : Ref → Bool) (reason : Bool) (old c : Container) (db : Db)
    → validate_container companies db reason (some old) c ≡ pass
    → ContainerKept old c db (record db { containers = put container_key c db.containers })
unfolding validate_container approved_sold
validate_container-Kept companies reason old c db h =
    let (h7, gate) = then_check-pass _ (validate_close_gate db c) h in
    let (h6, transition) = then_check-pass _ (validate_container_transition (some old) c) h7 in
    let (h5, sold) = then_check-pass _ (validate_inward_vs_approved_sold db (some old) c) h6 in
    let (h4, posted) = then_check-pass _ (validate_inward_vs_posted_physical db (some old) c) h5 in
    let (lots, total) = sold-kept db old c sold in
    record {
      stored = stored_row db c;
      status = transition-kept old c transition;
      lot_sold = λ lot l e. lot-covered db c lot l lots (sym (lot_of-written db c lot) ∙ e);
      sold = total;
      posted = posted-kept db old c posted;
      reconciled = gate-kept db c gate;
    }

-- Where a stored Container is saved, it is the row of its name; its status is as it was or one
-- that CONTAINER_STATUS_TRANSITIONS allows next; each of its lots covers what is sold from it and
-- the total covers what is sold and what is posted in all, each up to 1e-9 (the total of what is
-- sold, where it has lots); and it is Fully Reconciled only where it is Closed and the close gate
-- passed.
pub save_container-ContainerKept :
    (companies : Ref → Bool) (reason : Bool) (old c : Container) (db db' : Db)
    → find container_key c.name db.containers ≡ some old
    → save_container companies reason c db ≡ ok (tt, db')
    → ContainerKept old c db db'
unfolding save_container
save_container-ContainerKept companies reason old c db db' f h =
    after_check
      (λ x. validate_container companies x reason (find container_key c.name x.containers) c) _ db
      db' tt h
      λ e k.
        let left : record db { containers = put container_key c db.containers } ≡ db' = cc in
        subst (ContainerKept old c db) left
          (validate_container-Kept companies reason old c db (rw f at e))
