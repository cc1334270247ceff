-- ===== src/Physical.antt =====
-- physical.py: the ledger of posted Outwards, and what is physically left of a lot and of a
-- Container.
pub mod Ledger
pub mod Weighed
use fresko_universe.Ats.{lot_of}
use fresko_universe.Data.{OutwardLine, Outward, OutwardStatus, MovementType}
use fresko_universe.Db.{container_key, Db, Result, ok, err, Error}
use fresko_universe.Prelude.{
  ℕ, Bool, true, false, ◌&&◌, not, none, some, List, [], ◌∷◌, ◌==◌, if◌then◌else◌, Ref, ◌=?◌, any,
  find,
}
use fresko_universe.Prelude.Int.{◌+ℤ◌, ◌-ℤ◌, ltb_ℤ, ℤ, pos}

abbrev pub is_posted : OutwardStatus → Bool
is_posted OutwardStatus.posted = true
is_posted _ = false

-- The lines of the posted Outwards of a Container, each with its movement type.
abbrev pub PostedLine : Type 0
PostedLine = MovementType × OutwardLine

unfoldable pub tagged : MovementType → List OutwardLine → List PostedLine → List PostedLine
tagged m [] rest = rest
tagged m (l ∷ ls) rest = (m, l) ∷ tagged m ls rest

unfoldable pub posted_lines : ℕ → List Outward → List PostedLine
unfolding tagged
posted_lines container [] = []
posted_lines container (o ∷ os) =
    let rest = posted_lines container os in
    if o.container == container && is_posted o.status
    then tagged o.movement_type o.lines rest
    else rest

-- `sign * flt(row.qty)`
unfoldable pub signed_qty : PostedLine → ℤ
signed_qty (MovementType.outward, l) = l.qty
signed_qty (MovementType.reversal, l) = pos 0 -ℤ l.qty

-- The two buckets of posted_physical_quantities: by lot, in the order of first occurrence, and
-- unmapped.
pub record Posted : Type 0 where
  pub by_lot : List (ℕ × ℤ)
  pub unmapped : ℤ

-- `by_lot[lot_no] += quantity`
unfoldable pub add_to_lot : ℕ → ℤ → List (ℕ × ℤ) → List (ℕ × ℤ)
add_to_lot lot q [] = (lot, q) ∷ []
add_to_lot lot q ((k, v) ∷ rest) =
    if k == lot then (k, v +ℤ q) ∷ rest else (k, v) ∷ add_to_lot lot q rest

unfoldable pub add_line : Ref → ℤ → Posted → Posted
unfolding add_to_lot
add_line none q p = record p { unmapped = p.unmapped +ℤ q }
add_line (some lot) q p = record p { by_lot = add_to_lot lot q p.by_lot }

unfoldable pub add_lines : List PostedLine → Posted → Posted
unfolding add_line signed_qty
add_lines [] p = p
add_lines ((m, l) ∷ rest) p = add_lines rest (add_line l.lot_no (signed_qty (m, l)) p)

abbrev pub nothing_posted : Posted
nothing_posted = record { by_lot = []; unmapped = pos 0 }

-- posted_physical_quantities
unfoldable pub posted_physical_quantities : ℕ → Db → Posted
unfolding posted_lines add_lines
posted_physical_quantities container db =
    add_lines (posted_lines container db.outwards) nothing_posted

-- `posted_by_lot.get(lot_no)`, 0 for a lot that is not there
unfoldable pub posted_of : ℕ → List (ℕ × ℤ) → ℤ
posted_of lot [] = pos 0
posted_of lot ((k, v) ∷ rest) = if k == lot then v else posted_of lot rest

unfoldable pub sum_values : List (ℕ × ℤ) → ℤ
sum_values [] = pos 0
sum_values ((k, v) ∷ rest) = v +ℤ sum_values rest

-- `sum(posted_by_lot.values()) + unmapped`
unfoldable pub posted_total : Posted → ℤ
unfolding sum_values
posted_total p = sum_values p.by_lot +ℤ p.unmapped

-- The tolerance 1e-9.
abbrev pub tolerance : ℤ
tolerance = pos 1

-- The last check of both: what remains, if the quantity is at most that and the tolerance.
unfoldable pub remaining_after : ℤ → ℤ → ℤ → Result ℤ
remaining_after inward posted qty =
    if ltb_ℤ (inward -ℤ posted +ℤ tolerance) qty
    then err Error.physical_overdrawn
    else ok (inward -ℤ posted)

-- assert_mapped_lot_capacity
unfoldable pub assert_mapped_lot_capacity : ℕ → ℕ → ℤ → Ref → Db → Result ℤ
unfolding remaining_after posted_of posted_physical_quantities
assert_mapped_lot_capacity container lot qty uom db = elim (lot_of container lot db) [
  | none ↦ err Error.lot_not_on_container
  | some l ↦
      if not (uom =? l.uom)
      then err Error.uom_mismatch
      else remaining_after l.inward_qty
          (posted_of lot (posted_physical_quantities container db).by_lot) qty
]

-- assert_container_capacity
unfoldable pub assert_container_capacity : ℕ → ℤ → List Ref → Db → Result ℤ
unfolding remaining_after posted_total posted_physical_quantities any
assert_container_capacity container qty uoms db =
    elim (find container_key container db.containers) [
      | none ↦ err Error.container_missing
      | some c ↦
          if any (λ u. not (u =? c.uom)) uoms
          then err Error.uom_mismatch
          else remaining_after c.inward_qty (posted_total (posted_physical_quantities container db))
              qty
    ]
