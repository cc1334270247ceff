-- ===== src/Ats.antt =====
-- fresko_core/ats.py: what may still be sold of a lot, and of its Container.
pub mod Capacity
pub mod Commit
pub mod Reserved
use fresko_universe.Data.{Deal, Lot, QuantityAssertion, DealStatus, Basis, AssertionStatus}
use fresko_universe.Db.{Check, throw_if, container_key, Db, Result, ok, err, Error}
use fresko_universe.Policy.{reduces_ats}
use fresko_universe.Prelude.{
  ℕ, Bool, true, false, ◌&&◌, not, Option, none, some, List, [], ◌∷◌, ◌==◌, if◌then◌else◌, Ref,
  ◌=?◌, find_by, keep, find,
}
use fresko_universe.Prelude.Int.{◌+ℤ◌, ◌-ℤ◌, ltb_ℤ, min_ℤ, max_ℤ, ℤ, pos}

-- commercial_qty_for_ats
unfoldable pub commercial_qty : DealStatus → ℤ → ℤ → ℤ
commercial_qty DealStatus.partially_dispatched qty dispatched = max_ℤ (qty -ℤ dispatched) (pos 0)
commercial_qty DealStatus.cancelled qty dispatched = max_ℤ dispatched (pos 0)
commercial_qty _ qty dispatched = qty

-- commercial_qty_for_ats, of a Deal
unfoldable pub commercial_qty_for_ats : Deal → ℤ
unfolding commercial_qty
commercial_qty_for_ats d = commercial_qty d.status d.qty d.dispatched_qty

-- No lot asked for, or this one.
abbrev pub lot_matches : Option ℕ → Deal → Bool
lot_matches none d = true
lot_matches (some lot) d = d.lot_no =? some lot

-- No Deal left out, or another one.
abbrev pub not_excluded : Option ℕ → Deal → Bool
not_excluded none d = true
not_excluded (some n) d = not (d.name == n)

-- The WHERE clause of _reserved_qty, but for the exclusion.
unfoldable pub counts : ℕ → Option ℕ → Deal → Bool
unfolding reduces_ats
counts container lot d = d.container == container && lot_matches lot d && reduces_ats d.status

-- What one Deal adds to the sum.
unfoldable pub reserved_by : ℕ → Option ℕ → Deal → ℤ
reserved_by container lot d = if counts container lot d then commercial_qty_for_ats d else pos 0

-- _reserved_qty
unfoldable pub reserved_qty : ℕ → Option ℕ → Option ℕ → List Deal → ℤ
unfolding counts
reserved_qty container lot exclude [] = pos 0
reserved_qty container lot exclude (d ∷ ds) =
    (if counts container lot d && not_excluded exclude d then commercial_qty_for_ats d else pos 0)
    +ℤ reserved_qty container lot exclude ds

-- The rows of a Container's child table of lots.
unfoldable pub lots_of : ℕ → Db → List Lot
unfolding find
lots_of container db = elim (find container_key container db.containers) [
  | none ↦ []
  | some c ↦ c.lots
]

-- The first lot row of that number.
unfoldable pub lot_of : ℕ → ℕ → Db → Option Lot
unfolding lots_of find_by
lot_of container lot db = find_by (λ l. l.lot_no =? some lot) (lots_of container db)

abbrev is_operating : Basis → Bool
is_operating Basis.operating_inward = true
is_operating _ = false

abbrev is_active : AssertionStatus → Bool
is_active AssertionStatus.active = true
is_active _ = false

-- The active OPERATING_INWARD assertions of a Container.
unfoldable pub operating_assertions : ℕ → List QuantityAssertion → List QuantityAssertion
unfolding keep
operating_assertions container =
    keep λ a. a.container == container && is_operating a.basis && is_active a.status

-- The capacity that the assertions leave of the legacy inward quantity. An assertion in another
-- unit, or one without a quantity, leaves it unresolved.
unfoldable pub asserted_capacity : ℤ → List QuantityAssertion → Option QuantityAssertion → Result ℤ
asserted_capacity legacy [] none = ok legacy
asserted_capacity legacy (_ ∷ _) none = err Error.ats_unresolved
asserted_capacity legacy _ (some a) = elim a.quantity [
  | none ↦ err Error.ats_unresolved
  | some q ↦ ok (min_ℤ legacy q)
]

-- _container_operating_capacity
unfoldable pub container_operating_capacity : ℕ → Ref → Db → Result ℤ
unfolding find find_by operating_assertions asserted_capacity
container_operating_capacity container uom db = elim (find container_key container db.containers) [
  | none ↦ err Error.container_missing
  | some c ↦
      if not (c.uom =? uom)
      then err Error.uom_mismatch
      else let rows = operating_assertions container db.assertions in
        asserted_capacity c.inward_qty rows (find_by (λ a. a.uom =? uom) rows)
]

-- What is left of the lot and of the Container's capacity: the lower of the two.
unfoldable pub lot_available : ℕ → ℕ → Lot → Option ℕ → Db → Result ℤ
unfolding container_operating_capacity reserved_qty
lot_available container lot row exclude db =
    elim (container_operating_capacity container row.uom db) [
      | err e ↦ err e
      | ok capacity ↦ ok (
          min_ℤ (row.inward_qty -ℤ reserved_qty container (some lot) exclude db.deals)
            (capacity -ℤ reserved_qty container none exclude db.deals))
    ]

-- available_to_sell; a missing lot number is equal to none in a table
unfoldable pub available_to_sell : ℕ → Ref → Option ℕ → Db → Result ℤ
unfolding lot_available lot_of
available_to_sell container none exclude db = err Error.lot_not_on_container
available_to_sell container (some lot) exclude db = elim (lot_of container lot db) [
  | none ↦ err Error.lot_not_on_container
  | some row ↦ lot_available container lot row exclude db
]

-- The check that the callers make: `if flt(qty) > ats: throw(e)`.
unfoldable pub assert_ats : ℕ → Ref → Option ℕ → ℤ → Error → Db → Check
unfolding available_to_sell
assert_ats container lot exclude qty e db = elim (available_to_sell container lot exclude db) [
  | err e' ↦ err e'
  | ok ats ↦ throw_if (ltb_ℤ ats qty) e
]

-- approved_sold
unfoldable pub approved_sold : ℕ → Option ℕ → Db → ℤ
unfolding reserved_qty
approved_sold container lot db = reserved_qty container lot none db.deals
