-- ===== src/Deals/Moving.antt =====
-- cancel_deal, the legacy outward transition and record_dispatch of deals.py.
use fresko_universe.Access.{assert_can_work_on_deal, assert_can_record_dispatch}
use fresko_universe.Ats.{lot_of}
use fresko_universe.Data.{Deal, Lot, no_flags, Session, Flags, is_status, DealStatus}
use fresko_universe.Db.{
  Check, pass, throw_if, ◌then_check◌, M, ◌>>=◌, ◌>>◌, pure, reads, check, get_deal, Db, err, Error,
}
use fresko_universe.DealDoc.{save_deal}
use fresko_universe.Deals.Locking.{set_status, locked_deal}
use fresko_universe.Prelude.{
  ℕ, true, ◌&&◌, ◌||◌, not, Option, none, some, List, [], ◌∷◌, ◌==◌, if◌then◌else◌, Ref, is_set,
  ◌=?◌,
}
use fresko_universe.Prelude.Int.{◌+ℤ◌, ltb_ℤ, leb_ℤ, eqb_ℤ, ℤ, pos}

unfoldable pub cancel_with : Ref → Deal → Deal
cancel_with reason d = record d { cancel_reason = reason; status = DealStatus.cancelled }

-- cancel_deal, which takes no lock
unfoldable pub cancel_deal : Session → ℕ → Ref → M Deal
cancel_deal s n reason = do
  check (throw_if (not (is_set reason)) Error.cancel_reason_required)
  deal ← reads (get_deal n)
  check (assert_can_work_on_deal s deal)
  if is_status deal.status DealStatus.cancelled
      then pure deal
      else save_deal set_status (cancel_with reason deal)

unfoldable pub to_outward_pending : Deal → Deal
to_outward_pending d = record d { status = DealStatus.outward_pending }

-- advance_to_legacy_outward_pending, also called release_for_outward
unfoldable pub advance_to_legacy_outward_pending : Session → Db → ℕ → M Deal
advance_to_legacy_outward_pending s before n = do
  deal ← locked_deal before n (λ _. assert_can_record_dispatch s)
  if is_status deal.status DealStatus.outward_pending then pure deal else (do
    check (
        throw_if
          (not (
            is_status deal.status DealStatus.approved
            || is_status deal.status DealStatus.auto_approved))
          Error.wrong_status)
    check (throw_if (not (eqb_ℤ deal.dispatched_qty (pos 0))) Error.already_dispatched)
    save_deal set_status (to_outward_pending deal))

-- The quantity that the other Deals of the lot have dispatched, whatever their status.
unfoldable pub other_dispatched : ℕ → Ref → ℕ → List Deal → ℤ
other_dispatched container lot n [] = pos 0
other_dispatched container lot n (d ∷ ds) =
    (if d.container == container && d.lot_no =? lot && is_set lot && not (d.name == n)
      then d.dispatched_qty
      else pos 0)
    +ℤ other_dispatched container lot n ds

unfoldable pub lot_ceiling : Option Lot → ℤ → ℤ → Check
lot_ceiling none others qty = pass
lot_ceiling (some l) others qty =
    throw_if (ltb_ℤ l.inward_qty (others +ℤ qty)) Error.physical_ceiling

unfoldable pub lot_of_deal : Deal → Db → Option Lot
lot_of_deal d db = elim d.lot_no [ none ↦ none | some lot ↦ lot_of d.container lot db ]

-- The checks of record_dispatch on a quantity that is new.
unfoldable pub dispatch_checks : Deal → ℤ → Db → Check
dispatch_checks d qty db =
    throw_if
      (not (
        is_status d.status DealStatus.outward_pending
        || is_status d.status DealStatus.partially_dispatched))
      Error.wrong_status
    then_check throw_if (ltb_ℤ qty d.dispatched_qty) Error.dispatch_decreases
    then_check throw_if (ltb_ℤ d.qty qty) Error.exceeds_deal_qty
    then_check lot_ceiling (lot_of_deal d db)
        (other_dispatched d.container d.lot_no d.name db.deals) qty

abbrev pub set_dispatched : Flags
set_dispatched = record no_flags { allow_status_transition = true; allow_dispatch_write = true }

-- The Deal with its new quantity; `set_status` moves it where that is positive.
unfoldable pub dispatch_to : ℤ → Deal → Deal
dispatch_to qty d = record d {
  dispatched_qty = qty;
  status =
      if ltb_ℤ (pos 0) qty && ltb_ℤ qty d.qty
      then DealStatus.partially_dispatched
      else if leb_ℤ d.qty qty
      then DealStatus.dispatched
      else d.status;
}

-- The part of record_dispatch that follows the lock.
unfoldable pub record_dispatch_locked : Deal → ℤ → M Deal
record_dispatch_locked d qty =
    if is_status d.status DealStatus.dispatched
    then (if eqb_ℤ qty d.dispatched_qty then pure d else reads λ _. err Error.inexact_replay)
    else if (is_status d.status DealStatus.outward_pending
          || is_status d.status DealStatus.partially_dispatched)
        && eqb_ℤ qty d.dispatched_qty
    then pure d
    else (do reads (dispatch_checks d qty); save_deal set_dispatched (dispatch_to qty d))

-- record_dispatch, also called set_dispatched_qty
unfoldable pub record_dispatch : Session → Db → ℕ → ℤ → M Deal
record_dispatch s before n qty = do
  deal ← locked_deal before n (λ _. assert_can_record_dispatch s)
  check (throw_if (ltb_ℤ qty (pos 0)) Error.negative_dispatch)
  record_dispatch_locked deal qty
