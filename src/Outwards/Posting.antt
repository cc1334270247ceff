-- ===== src/Outwards/Posting.antt =====
-- outward_service.py: an Outward is posted within what is physically left.
use fresko_universe.Access.{assert_can_post_outward}
use fresko_universe.Data.{
  OutwardLine, Outward, Session, LedgerFlags, is_outward, is_movement, OutwardStatus, MovementType,
}
use fresko_universe.Db.{
  Check, pass, throw_if, ◌then_check◌, M, ◌>>=◌, ◌>>◌, pure, reads, check, get_outward, ignore, Db,
  Result, ok, err, Error,
}
use fresko_universe.Outwards.Creating.{service_flags, load_outward_for_update}
use fresko_universe.Outwards.Document.{save_outward}
use fresko_universe.Outwards.Opening.{after_post}
use fresko_universe.Outwards.Reversing.{reversal_exists, is_posted_outward}
use fresko_universe.Physical.{assert_mapped_lot_capacity, assert_container_capacity}
use fresko_universe.Prelude.{
  ℕ, Bool, true, false, ◌&&◌, not, Option, none, some, List, [], ◌∷◌, ◌==◌, if◌then◌else◌, Ref,
  ◌=?◌,
}
use fresko_universe.Prelude.Int.{◌+ℤ◌, eqb_ℤ, ℤ, pos}

-- The total of one mapped lot, with the unit of its first line.
pub record MappedLot : Type 0 where
  pub lot : ℕ
  pub uom : Ref
  pub quantity : ℤ

-- `uom_by_lot.setdefault(...)`, its test, and `quantities[lot] += qty`
unfoldable pub add_mapped : ℕ → Ref → ℤ → List MappedLot → Result (List MappedLot)
add_mapped lot uom qty [] = ok (record { lot = lot; uom = uom; quantity = qty } ∷ [])
add_mapped lot uom qty (m ∷ ms) =
    let rest = add_mapped lot uom qty ms in
    if m.lot == lot
    then (if m.uom =? uom
        then ok (record m { quantity = m.quantity +ℤ qty } ∷ ms)
        else err Error.lot_uoms_differ)
    else (elim rest [ ok r ↦ ok (m ∷ r) | err e ↦ err e ])

-- The totals of the mapped lots of some lines, added to those before them.
unfoldable pub mapped_lots : List OutwardLine → List MappedLot → Result (List MappedLot)
unfolding add_mapped
mapped_lots [] ms = ok ms
mapped_lots (l ∷ ls) ms = elim l.lot_no [
  | none ↦ mapped_lots ls ms
  | some lot ↦ elim (add_mapped lot l.uom l.qty ms) [ err e ↦ err e | ok ms' ↦ mapped_lots ls ms' ]
]

unfoldable pub check_mapped : ℕ → List MappedLot → Db → Check
unfolding assert_mapped_lot_capacity
check_mapped container [] db = pass
check_mapped container (m ∷ ms) db =
    ignore (assert_mapped_lot_capacity container m.lot m.quantity m.uom db)
    then_check check_mapped container ms db

-- `sum(flt(line.qty) for line in doc.lines)`
unfoldable pub lines_total : List OutwardLine → ℤ
lines_total [] = pos 0
lines_total (l ∷ ls) = l.qty +ℤ lines_total ls

unfoldable pub lines_uoms : List OutwardLine → List Ref
lines_uoms [] = []
lines_uoms (l ∷ ls) = l.uom ∷ lines_uoms ls

-- The checks of post_outward on a movement that is no reversal.
unfoldable pub capacity_checks : Outward → Db → Check
unfolding assert_container_capacity lines_total lines_uoms mapped_lots check_mapped
capacity_checks o db =
    ignore (assert_container_capacity o.container (lines_total o.lines) (lines_uoms o.lines) db)
    then_check (elim (mapped_lots o.lines []) [
      | err e ↦ err e
      | ok ms ↦ check_mapped o.container ms db
    ])

-- `original_shape == reversal_shape`
unfoldable pub same_shape : List OutwardLine → List OutwardLine → Bool
same_shape [] [] = true
same_shape [] (_ ∷ _) = false
same_shape (_ ∷ _) [] = false
same_shape (x ∷ xs) (y ∷ ys) =
    x.lot_no =? y.lot_no && x.uom =? y.uom && eqb_ℤ x.qty y.qty && same_shape xs ys

-- _validate_reversal_for_post, on the original
unfoldable pub mirror_checks : Outward → Outward → Db → Check
unfolding is_posted_outward reversal_exists same_shape
mirror_checks original reversal db =
    throw_if (not (is_posted_outward original)) Error.not_posted_outward
    then_check throw_if (reversal_exists original.name (some reversal.name) db)
        Error.already_reversed
    then_check throw_if (not (same_shape original.lines reversal.lines)) Error.not_a_mirror

-- The Outward that a REVERSAL reverses.
unfoldable pub reversed_of : Outward → Db → Result Outward
reversed_of o db = elim o.reverses_outward [
  | none ↦ err Error.not_found
  | some n ↦ get_outward n db
]

-- The checks of a REVERSAL: what it reverses.
unfoldable pub reversal_checks : Outward → M (Option Outward)
unfolding mirror_checks reversed_of
reversal_checks o = do
  original ← reads (reversed_of o)
  reads (mirror_checks original o)
  pure (some original)

-- Those of an OUTWARD.
unfoldable pub stock_checks : Outward → M (Option Outward)
unfolding capacity_checks
stock_checks o = do reads (capacity_checks o); pure none

-- The checks before the post.
unfoldable pub posting_checks : Outward → M (Option Outward)
unfolding reversal_checks stock_checks
posting_checks o =
    if is_movement o.movement_type MovementType.reversal then reversal_checks o else stock_checks o

abbrev pub posting : LedgerFlags
posting = record service_flags { allow_post = true }

-- The post, once the status and the maker are checked.
unfoldable pub post_checked : Session → Outward → M Outward
unfolding posting_checks save_outward after_post
post_checked s o = do
  original ← posting_checks o
  saved ←
      save_outward s posting (record o { status = OutwardStatus.posted; posted_by = some s.user })
  after_post saved original
  pure saved

-- post_outward of an Outward that is not posted yet, under the lock
unfoldable pub post_locked : Session → Outward → M Outward
unfolding post_checked
post_locked s o = do
  check (throw_if (not (is_outward o.status OutwardStatus.review_pending)) Error.wrong_status)
  check (throw_if (o.prepared_by == s.user) Error.maker_is_checker)
  post_checked s o

-- post_outward
unfoldable pub post_outward : Session → Db → ℕ → M Outward
unfolding assert_can_post_outward load_outward_for_update post_locked
post_outward s before n = do
  check (assert_can_post_outward s)
  o ← load_outward_for_update before n
  if is_outward o.status OutwardStatus.posted then pure o else post_locked s o
