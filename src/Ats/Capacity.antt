-- ===== src/Ats/Capacity.antt =====
-- What a sale that passes the check leaves: neither the lot nor the Container is oversold.
use fresko_universe.Prelude.{ℕ, ◌≡◌, refl, Option, none, some, Ref, inl, inr, Option-cases}
use fresko_universe.Prelude.Int.{
  ℤ, ◌+ℤ◌, ◌-ℤ◌, ◌≤ℤ◌, int_laws, min_ℤ, min_ℤ-le_left, min_ℤ-le_right, ltb_ℤ, ltb_ℤ-false,
}
use fresko_universe.Data.{Lot}
use fresko_universe.Db.{Db, ok, pass, Error, Result-cases, throw_if-pass}
use fresko_universe.Ats.{
  reserved_qty, lot_of, lot_available, available_to_sell, container_operating_capacity, assert_ats,
}

-- A quantity on top of what the other Deals reserve stays within the lot's inward quantity, and
-- within the capacity of the Container in the lot's unit.
pub record Fits (container : ℕ) (lot : Ref) (exclude : Option ℕ) (qty : ℤ) (db : Db) : Type 0 where
  pub number : ℕ
  pub numbered : lot ≡ some number
  pub row : Lot
  pub found : lot_of container number db ≡ some row
  pub capacity : ℤ
  pub resolved : container_operating_capacity container row.uom db ≡ ok capacity
  pub in_lot : reserved_qty container (some number) exclude db.deals +ℤ qty ≤ℤ row.inward_qty
  pub in_container : reserved_qty container none exclude db.deals +ℤ qty ≤ℤ capacity

within :
    (inward reserved capacity total qty : ℤ)
    → qty ≤ℤ min_ℤ (inward -ℤ reserved) (capacity -ℤ total)
    → (reserved +ℤ qty ≤ℤ inward) × (total +ℤ qty ≤ℤ capacity)
within inward reserved capacity total qty h = (
  omega (int_laws, min_ℤ-le_left (inward -ℤ reserved) (capacity -ℤ total)),
  omega (int_laws, min_ℤ-le_right (inward -ℤ reserved) (capacity -ℤ total)),
)

lot_available-ok :
    (container lot : ℕ) (row : Lot) (exclude : Option ℕ) (db : Db) (ats : ℤ)
    → lot_available container lot row exclude db ≡ ok ats
    → (capacity : ℤ) × (container_operating_capacity container row.uom db ≡ ok capacity)
      × (min_ℤ
            (row.inward_qty -ℤ reserved_qty container (some lot) exclude db.deals)
            (capacity -ℤ reserved_qty container none exclude db.deals)
          ≡ ats)
unfolding lot_available
lot_available-ok container lot row exclude db ats h =
    elim (Result-cases (container_operating_capacity container row.uom db)) [
      | inl (capacity, e) ↦ (capacity, e, (let g = (rw (e, lot_available) at h) in cc))
      | inr (x, e) ↦ (let g = (rw (e, lot_available) at h) in absurd (cc))
    ]

-- Where the available quantity is known, at most that much fits.
pub available_to_sell-Fits :
    (container : ℕ) (lot : Ref) (exclude : Option ℕ) (qty ats : ℤ) (db : Db)
    → available_to_sell container lot exclude db ≡ ok ats
    → qty ≤ℤ ats
    → Fits container lot exclude qty db
unfolding available_to_sell
available_to_sell-Fits container none exclude qty ats db h le = absurd (cc)
available_to_sell-Fits container (some lot) exclude qty ats db h le =
    elim (Option-cases (lot_of container lot db)) [
      | inl e ↦ (let g = (rw (e, available_to_sell) at h) in absurd (cc))
      | inr (row, e) ↦
          let (capacity, known, eq) =
            lot_available-ok container lot row exclude db ats (rw (e, available_to_sell) at h) in
          let (l, c) =
            within row.inward_qty (reserved_qty container (some lot) exclude db.deals) capacity
              (reserved_qty container none exclude db.deals) qty (rw eq le) in
          record {
            number = lot;
            numbered = refl;
            row = row;
            found = e;
            capacity = capacity;
            resolved = known;
            in_lot = l;
            in_container = c;
          }
    ]

-- Where the check of the available quantity passes, the lot is a row of the Container, the
-- Container's capacity is known in the lot's unit, and the quantity, on top of what the other
-- Deals reserve, is within both.
pub assert_ats-Fits :
    (container : ℕ) (lot : Ref) (exclude : Option ℕ) (qty : ℤ) (e : Error) (db : Db)
    → assert_ats container lot exclude qty e db ≡ pass
    → Fits container lot exclude qty db
unfolding assert_ats
assert_ats-Fits container lot exclude qty e db h =
    elim (Result-cases (available_to_sell container lot exclude db)) [
      | inl (ats, known) ↦
          available_to_sell-Fits container lot exclude qty ats db known
            (ltb_ℤ-false ats qty (throw_if-pass (ltb_ℤ ats qty) e (rw (known, assert_ats) at h)))
      | inr (x, failed) ↦ (let g = (rw (failed, assert_ats) at h) in absurd (cc))
    ]
