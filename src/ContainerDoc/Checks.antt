-- ===== src/ContainerDoc/Checks.antt =====
-- The checks of FreskoContainer.validate. `old` is the stored Container; a new one has none.
use fresko_universe.Ats.{approved_sold}
use fresko_universe.CloseGate.{assert_container_can_fully_reconcile}
use fresko_universe.Data.{Lot, Container, is_container_status, ContainerStatus, ClosingStatus}
use fresko_universe.Db.{Check, pass, throw_if, ◌then_check◌, Db, err, Error}
use fresko_universe.Physical.{posted_physical_quantities, posted_total, tolerance}
use fresko_universe.Policy.{container_may_follow}
use fresko_universe.Prelude.{
  ℕ, Bool, true, false, ◌&&◌, ◌||◌, not, Option, none, some, List, [], ◌∷◌, ◌==◌, if◌then◌else◌,
  Ref, is_set, ◌=?◌, any, find_by,
}
use fresko_universe.Prelude.Int.{◌+ℤ◌, ◌-ℤ◌, ltb_ℤ, leb_ℤ, eqb_ℤ, ℤ, pos}

-- _validate_unique_container_no
unfoldable pub validate_unique_container_no : Db → Container → Check
unfolding any
validate_unique_container_no db c =
    throw_if
      (is_set c.container_no
        && is_set c.company
        && any
            (λ o.
              o.company =? c.company && o.container_no =? c.container_no && not (o.name == c.name))
            db.containers)
      Error.container_no_taken

-- The checks of one lot row; `seen` are the lot numbers of the rows before it.
unfoldable pub validate_lot_row : Ref → List Ref → Lot → Check
unfolding any
validate_lot_row uom seen l =
    throw_if (not (is_set l.lot_no)) Error.lot_no_required
    then_check throw_if (any (λ n. n =? l.lot_no) seen) Error.duplicate_lot
    then_check throw_if (ltb_ℤ l.inward_qty (pos 0)) Error.negative_inward
    then_check throw_if (not (is_set l.uom)) Error.lot_uom_required
    then_check throw_if (is_set uom && not (l.uom =? uom)) Error.uom_mismatch

unfoldable pub validate_lot_rows : Ref → List Ref → List Lot → Check
unfolding validate_lot_row
validate_lot_rows uom seen [] = pass
validate_lot_rows uom seen (l ∷ rest) =
    validate_lot_row uom seen l then_check validate_lot_rows uom (l.lot_no ∷ seen) rest

-- Arrived or later
unfoldable pub has_arrived : ContainerStatus → Bool
has_arrived ContainerStatus.draft = false
has_arrived ContainerStatus.expected = false
has_arrived ContainerStatus.cancelled = false
has_arrived _ = true

unfoldable pub sum_inward : List Lot → ℤ
sum_inward [] = pos 0
sum_inward (l ∷ rest) = l.inward_qty +ℤ sum_inward rest

-- 0.0001
abbrev pub sum_tolerance : ℤ
sum_tolerance = pos 100000

-- `abs(a - b) > 0.0001`
unfoldable pub far_apart : ℤ → ℤ → Bool
far_apart a b = ltb_ℤ sum_tolerance (a -ℤ b) || ltb_ℤ sum_tolerance (b -ℤ a)

unfoldable pub has_lots : List Lot → Bool
has_lots [] = false
has_lots (_ ∷ _) = true

-- _validate_lots
unfoldable pub validate_lots : Container → Check
unfolding validate_lot_rows has_arrived sum_inward far_apart has_lots
validate_lots c =
    validate_lot_rows c.uom [] c.lots
    then_check throw_if (has_arrived c.status && not (has_lots c.lots)) Error.lots_required
    then_check throw_if (has_lots c.lots && far_apart (sum_inward c.lots) c.inward_qty)
        Error.lot_sum_differs

-- Selling or later
unfoldable pub has_sold : ContainerStatus → Bool
has_sold ContainerStatus.selling = true
has_sold ContainerStatus.closing = true
has_sold ContainerStatus.closed = true
has_sold _ = false

unfoldable pub inward_changed : Option Container → Container → Bool
inward_changed none c = false
inward_changed (some old) c = not (eqb_ℤ c.inward_qty old.inward_qty)

-- _validate_inward_qty; `reason` is the flag inward_qty_change_reason
unfoldable pub validate_inward_qty : Bool → Option Container → Container → Check
unfolding has_arrived has_sold inward_changed
validate_inward_qty reason old c =
    throw_if (leb_ℤ c.inward_qty (pos 0) && has_arrived c.status) Error.inward_not_positive
    then_check throw_if (inward_changed old c && has_sold c.status && not reason)
        Error.inward_reason_required

-- A row of checks, one for each item.
unfoldable pub check_each : {A : Type 0} → (A → Check) → List A → Check
check_each f [] = pass
check_each f (x ∷ xs) = f x then_check check_each f xs

-- The row of a lot number; the checks before have made the numbers differ.
unfoldable pub row_of : ℕ → List Lot → Option Lot
unfolding find_by
row_of lot rows = find_by (λ l. l.lot_no =? some lot) rows

-- The stored unit of the lot is set and differs.
unfoldable pub lot_uom_changed : Option Lot → Lot → Bool
lot_uom_changed none l = false
lot_uom_changed (some stored) l = is_set stored.uom && not (l.uom =? stored.uom)

unfoldable pub covers_posted : Option Lot → Option Lot → ℤ → Check
unfolding lot_uom_changed
covers_posted none stored q = err Error.lot_has_posted
covers_posted (some l) stored q =
    throw_if (ltb_ℤ (l.inward_qty +ℤ tolerance) q) Error.below_posted
    then_check throw_if (lot_uom_changed stored l) Error.uom_has_posted

-- One entry of the posted quantities by lot.
unfoldable pub validate_posted_lot : List Lot → List Lot → (ℕ × ℤ) → Check
unfolding covers_posted row_of
validate_posted_lot stored rows (lot, q) =
    if leb_ℤ q tolerance then pass else covers_posted (row_of lot rows) (row_of lot stored) q

-- _validate_inward_vs_posted_physical
unfoldable pub validate_inward_vs_posted_physical : Db → Option Container → Container → Check
unfolding check_each validate_posted_lot posted_physical_quantities posted_total
validate_inward_vs_posted_physical db none c = pass
validate_inward_vs_posted_physical db (some old) c =
    let p = posted_physical_quantities c.name db in
    check_each (validate_posted_lot old.lots c.lots) p.by_lot
    then_check throw_if (ltb_ℤ (c.inward_qty +ℤ tolerance) (posted_total p)) Error.below_posted
    then_check throw_if (ltb_ℤ tolerance (posted_total p) && not (c.uom =? old.uom))
        Error.uom_has_posted

-- `approved_sold(self.name, row.lot_no)`: a row without a number would ask for all lots
unfoldable pub sold_of_row : Db → ℕ → Lot → ℤ
unfolding approved_sold
sold_of_row db container l = approved_sold container l.lot_no db

-- A stored lot that is still sold from has not been removed.
unfoldable pub validate_removed_lot : Db → Container → Lot → Check
unfolding any sold_of_row
validate_removed_lot db c stored =
    throw_if
      (is_set stored.lot_no
        && not (any (λ l. l.lot_no =? stored.lot_no) c.lots)
        && ltb_ℤ tolerance (sold_of_row db c.name stored))
      Error.lot_has_sold

-- A lot row covers what is sold from it.
unfoldable pub validate_sold_lot : Db → Container → Lot → Check
unfolding sold_of_row
validate_sold_lot db c l =
    throw_if (ltb_ℤ (l.inward_qty +ℤ tolerance) (sold_of_row db c.name l)) Error.below_sold

-- _validate_inward_vs_approved_sold
unfoldable pub validate_inward_vs_approved_sold : Db → Option Container → Container → Check
unfolding check_each validate_removed_lot validate_sold_lot approved_sold has_lots
validate_inward_vs_approved_sold db none c = pass
validate_inward_vs_approved_sold db (some old) c =
    check_each (validate_removed_lot db c) old.lots
    then_check check_each (validate_sold_lot db c) c.lots
    then_check (if has_lots c.lots
        then throw_if (ltb_ℤ (c.inward_qty +ℤ tolerance) (approved_sold c.name none db))
            Error.below_sold
        else throw_if (ltb_ℤ tolerance (approved_sold c.name none db)) Error.lot_has_sold)

-- _validate_status_transition
unfoldable pub validate_container_transition : Option Container → Container → Check
unfolding container_may_follow
validate_container_transition none c = pass
validate_container_transition (some old) c =
    if is_container_status old.status c.status
    then pass
    else throw_if (not (container_may_follow old.status c.status)) Error.invalid_transition

unfoldable pub is_fully_reconciled : ClosingStatus → Bool
is_fully_reconciled ClosingStatus.fully_reconciled = true
is_fully_reconciled _ = false

-- _validate_close_gate
unfoldable pub validate_close_gate : Db → Container → Check
unfolding is_fully_reconciled assert_container_can_fully_reconcile
validate_close_gate db c =
    if is_fully_reconciled c.closing_status
    then throw_if (not (is_container_status c.status ContainerStatus.closed)) Error.not_closed
      then_check assert_container_can_fully_reconcile c.name c.company db
    else pass
