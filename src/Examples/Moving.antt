-- ===== src/Examples/Moving.antt =====
-- A dispatch, and what is available.
use fresko_universe.Ats.{commercial_qty_for_ats, reserved_by, reserved_qty, assert_ats}
use fresko_universe.Ats.Capacity.{assert_ats-Fits, Fits}
use fresko_universe.Ats.Commit.{Fits-save}
use fresko_universe.Ats.Reserved.{reserved_qty-put}
use fresko_universe.Data.{Deal, no_flags, DealStatus}
use fresko_universe.Db.{pass, deal_key, Db, Result, ok, Error}
use fresko_universe.DealDoc.{save_deal}
use fresko_universe.Deals.{dispatch_to, record_dispatch}
use fresko_universe.Deals.Dispatch.{record_dispatch-Dispatched, Dispatched}
use fresko_universe.Deals.Replay.{record_dispatch-record_dispatch}
use fresko_universe.Deals.Reservation.{dispatch_to-reserved}
use fresko_universe.Examples.{runs, units, deal_a, db_of, approver_user, answer_of, state_of}
use fresko_universe.Prelude.{◌≡◌, refl, inl, true, none, some, [], ◌∷◌, find, put, NamesDiffer}
use fresko_universe.Prelude.Int.{◌+ℤ◌, ltb_ℤ, leb_ℤ, pos}

abbrev pending_deal : Deal
pending_deal = record deal_a {
  status = DealStatus.outward_pending;
  approved_rate = some (units 15);
}

abbrev db_5 : Db
db_5 = db_of pending_deal

abbrev dispatch : Result (Deal × Db)
dispatch = record_dispatch approver_user db_5 5 (units 10) db_5

dispatch-ok :
    record_dispatch approver_user db_5 5 (units 10) db_5
    ≡ ok (answer_of pending_deal dispatch, state_of db_5 dispatch)
unfolding runs
dispatch-ok = refl

record_dispatch-Dispatched_example :
    Dispatched 5 (units 10) (answer_of pending_deal dispatch) db_5 (state_of db_5 dispatch)
record_dispatch-Dispatched_example =
    record_dispatch-Dispatched approver_user db_5 5 (units 10) (answer_of pending_deal dispatch)
      db_5 (state_of db_5 dispatch) dispatch-ok

dispatch_to-reserved_example :
    (ltb_ℤ (units 10) pending_deal.qty ≡ true
      → commercial_qty_for_ats (dispatch_to (units 10) pending_deal) +ℤ units 10 ≡ pending_deal.qty)
    × (leb_ℤ pending_deal.qty (units 10) ≡ true
        → commercial_qty_for_ats (dispatch_to (units 10) pending_deal) ≡ pending_deal.qty)
dispatch_to-reserved_example = dispatch_to-reserved pending_deal (units 10) refl

-- Another Deal of 60 units fits beside the one of 40.
available-ok : assert_ats 1 (some 11) (some 8) (units 60) Error.exceeds_ats db_5 ≡ pass
unfolding runs
available-ok = refl

assert_ats-Fits_example : Fits 1 (some 11) (some 8) (units 60) db_5
assert_ats-Fits_example =
    assert_ats-Fits 1 (some 11) (some 8) (units 60) Error.exceeds_ats db_5 available-ok

one_name : NamesDiffer deal_key db_5.deals
unfolding find
one_name = (refl, tt)

abbrev other_deal : Deal
other_deal = record deal_a {
  name = 8;
  qty = units 60;
  status = DealStatus.approved;
  duplicate_fingerprint = some 92;
}

reserved_qty-put_example :
    reserved_qty 1 (some 11) none (put deal_key other_deal db_5.deals)
    ≡ reserved_qty 1 (some 11) (some 8) db_5.deals +ℤ reserved_by 1 (some 11) other_deal
reserved_qty-put_example = reserved_qty-put 1 (some 11) other_deal db_5.deals one_name

-- The other Deal is stored as approved and saved again.
abbrev priced_deal : Deal
priced_deal = record other_deal { approved_rate = some (units 15) }

abbrev db_6 : Db
db_6 = record db_5 { deals = pending_deal ∷ priced_deal ∷ [] }

two_names : NamesDiffer deal_key db_6.deals
unfolding find
two_names = (refl, (refl, tt))

abbrev saved_other : Result (Deal × Db)
saved_other = save_deal no_flags priced_deal db_6

saved_other-ok :
    save_deal no_flags priced_deal db_6
    ≡ ok (answer_of priced_deal saved_other, state_of db_6 saved_other)
unfolding runs
saved_other-ok = refl

beside-ok : assert_ats 1 (some 11) (some 8) (units 60) Error.exceeds_ats db_6 ≡ pass
unfolding runs
beside-ok = refl

Fits-save_example :
    Fits
      (answer_of priced_deal saved_other).container
      (answer_of priced_deal saved_other).lot_no
      none
      (pos 0)
      (state_of db_6 saved_other)
Fits-save_example =
    Fits-save no_flags priced_deal (answer_of priced_deal saved_other) db_6
      (state_of db_6 saved_other) two_names (inl refl)
      (assert_ats-Fits 1 (some 11) (some 8) (units 60) Error.exceeds_ats db_6 beside-ok)
      saved_other-ok

record_dispatch-record_dispatch_example :
    record_dispatch approver_user (state_of db_5 dispatch) 5 (units 10) (state_of db_5 dispatch)
    ≡ ok (answer_of pending_deal dispatch, state_of db_5 dispatch)
record_dispatch-record_dispatch_example =
    record_dispatch-record_dispatch approver_user db_5 5 (units 10)
      (answer_of pending_deal dispatch) db_5 (state_of db_5 dispatch) dispatch-ok
