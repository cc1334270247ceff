-- ===== src/DealDoc/Checks.antt =====
-- The checks of FreskoDeal.validate. `old` is the stored Deal; a new one has none.
use fresko_universe.Prelude.{
  ℕ, Bool, true, false, Option, none, some, ◌&&◌, ◌||◌, not, ◌==◌, ◌=?◌, is_set, any, find, Ref,
  or_else, if◌then◌else◌,
}
use fresko_universe.Prelude.Int.{ℤ, pos, ltb_ℤ, leb_ℤ, eqb_ℤ, ◌*ℤ◌}
use fresko_universe.Data.{
  Deal, Container, Lot, Flags, DealStatus, is_status, ExceptionDoc, ExceptionType, ExceptionStatus,
  is_exception,
}
use fresko_universe.Policy.{may_follow, commercially_locked}
use fresko_universe.Ats.{lot_of}
use fresko_universe.Db.{
  Db, Result, ok, err, Check, pass, throw_if, ◌then_check◌, Error, container_key,
}

-- _fetch_defaults_from_container, once the Container is found
unfoldable pub with_defaults : Container → Deal → Deal
with_defaults c d = record d {
  company = or_else d.company c.company;
  item = or_else d.item c.item;
  uom = or_else d.uom c.uom;
  currency = or_else d.currency c.currency;
}

-- _fetch_defaults_from_container
unfoldable pub fetch_defaults_from_container : Db → Deal → Result Deal
unfolding with_defaults find
fetch_defaults_from_container db d = elim (find container_key d.container db.containers) [
  | none ↦ err Error.container_missing
  | some c ↦ ok (with_defaults c d)
]

-- _validate_qty
unfoldable pub validate_qty : Deal → Check
validate_qty d = throw_if (leb_ℤ d.qty (pos 0)) Error.qty_not_positive

-- _validate_lot_belongs_to_container, once the lot row is found
unfoldable pub with_lot : Lot → Deal → Deal
with_lot l d = record d {
  container_lot = some l.name;
  batch = or_else d.batch l.batch;
  count_size = or_else d.count_size l.count_size;
}

unfoldable pub found_lot : Option Lot → Deal → Result Deal
unfolding with_lot
found_lot none d = err Error.lot_not_found
found_lot (some l) d = ok (with_lot l d)

unfoldable pub resolve_lot : Db → Ref → Deal → Result Deal
unfolding found_lot lot_of
resolve_lot db none d = ok d
resolve_lot db (some lot) d = found_lot (lot_of d.container lot db) d

-- _validate_lot_belongs_to_container
unfoldable pub validate_lot_belongs_to_container : Db → Deal → Result Deal
unfolding resolve_lot
validate_lot_belongs_to_container db d = resolve_lot db d.lot_no d

-- _validate_buyer_alias_immutable
unfoldable pub validate_buyer_alias : Option Deal → Deal → Check
validate_buyer_alias none d = pass
validate_buyer_alias (some old) d =
    throw_if (not (d.buyer_alias =? old.buyer_alias)) Error.alias_changed
    then_check throw_if (not (is_set d.buyer_alias)) Error.alias_empty

-- The key was set and is not what it was.
unfoldable pub key_changed : Ref → Ref → Bool
key_changed old new = not (new =? old) && is_set old

-- Another Deal has the message id, or the fingerprint.
unfoldable pub message_taken : Db → Deal → Bool
unfolding any
message_taken db d =
    any (λ o. o.source_message_id =? d.source_message_id && not (o.name == d.name)) db.deals

unfoldable pub fingerprint_taken : Db → Deal → Bool
unfolding any
fingerprint_taken db d =
    any (λ o. o.duplicate_fingerprint =? d.duplicate_fingerprint && not (o.name == d.name)) db.deals

unfoldable pub old_message : Option Deal → Deal → Ref
old_message none d = d.source_message_id
old_message (some old) d = old.source_message_id

unfoldable pub old_fingerprint : Option Deal → Deal → Ref
old_fingerprint none d = d.duplicate_fingerprint
old_fingerprint (some old) d = old.duplicate_fingerprint

-- _validate_idempotency_keys: a key that is not set is not checked
unfoldable pub validate_idempotency_keys : Db → Option Deal → Deal → Check
unfolding key_changed message_taken fingerprint_taken old_message old_fingerprint
validate_idempotency_keys db old d =
    throw_if (is_set d.source_message_id && key_changed (old_message old d) d.source_message_id)
      Error.message_id_changed
    then_check throw_if (is_set d.source_message_id && message_taken db d) Error.duplicate_message
    then_check throw_if
        (is_set d.duplicate_fingerprint
          && key_changed (old_fingerprint old d) d.duplicate_fingerprint)
        Error.fingerprint_changed
    then_check throw_if (is_set d.duplicate_fingerprint && fingerprint_taken db d)
        Error.duplicate_fingerprint

-- _validate_status_transition
unfoldable pub validate_status_transition : Flags → Option Deal → Deal → Check
unfolding may_follow
validate_status_transition flags none d = pass
validate_status_transition flags (some old) d =
    if is_status old.status d.status
    then pass
    else throw_if (not flags.allow_status_transition) Error.desk_transition
      then_check throw_if (not (may_follow old.status d.status)) Error.invalid_transition

-- has_value_changed, of a rate that may be unset
unfoldable pub rate_differs : Option ℤ → Option ℤ → Bool
rate_differs none none = false
rate_differs none (some _) = true
rate_differs (some _) none = true
rate_differs (some a) (some b) = not (eqb_ℤ a b)

-- Some field of LOCKED_COMMERCIAL_FIELDS, but for approved_rate, has changed.
unfoldable pub commercial_change : Deal → Deal → Bool
commercial_change old d =
    not (d.container == old.container)
    || not (d.buyer_alias =? old.buyer_alias)
    || not (d.item =? old.item)
    || not (d.lot_no =? old.lot_no)
    || not (d.container_lot =? old.container_lot)
    || not (eqb_ℤ d.qty old.qty)
    || not (eqb_ℤ d.proposed_rate old.proposed_rate)
    || not (d.uom =? old.uom)
    || not (d.company =? old.company)
    || not (d.customer =? old.customer)
    || not (d.count_size =? old.count_size)
    || not (d.salesperson_user =? old.salesperson_user)

-- _enforce_commercial_lock
unfoldable pub enforce_commercial_lock : Flags → Option Deal → Deal → Check
unfolding rate_differs commercial_change commercially_locked
enforce_commercial_lock flags none d = pass
enforce_commercial_lock flags (some old) d =
    throw_if (rate_differs d.approved_rate old.approved_rate && not flags.allow_approval_write)
      Error.approved_rate_locked
    then_check (if commercially_locked old.status || commercially_locked d.status
        then throw_if (commercial_change old d && not flags.allow_commercial_revision)
            Error.commercially_frozen
        else throw_if
            (not (is_status old.status DealStatus.proposed)
              && not (eqb_ℤ d.proposed_rate old.proposed_rate)
              && not flags.allow_commercial_revision)
            Error.proposed_rate_frozen)

-- The last test of _enforce_dispatched_qty_lock: only a flagged save writes the quantity.
unfoldable pub dispatch_unflagged : Option Deal → Deal → Bool
dispatch_unflagged none d = not (eqb_ℤ d.dispatched_qty (pos 0))
dispatch_unflagged (some old) d = not (eqb_ℤ d.dispatched_qty old.dispatched_qty)

-- _enforce_dispatched_qty_lock
unfoldable pub enforce_dispatched_qty_lock : Flags → Option Deal → Deal → Check
unfolding dispatch_unflagged
enforce_dispatched_qty_lock flags old d =
    throw_if (ltb_ℤ d.dispatched_qty (pos 0)) Error.negative_dispatch
    then_check throw_if (ltb_ℤ d.qty d.dispatched_qty) Error.dispatch_exceeds_qty
    then_check throw_if (dispatch_unflagged old d && not flags.allow_dispatch_write)
        Error.dispatch_server_only

-- EXCEPTION_OPEN_STATUSES
unfoldable pub is_open : ExceptionStatus → Bool
is_open ExceptionStatus.open_ = true
is_open ExceptionStatus.in_progress = true
is_open _ = false

-- An open Exception of that type on that Deal.
unfoldable pub open_of : ℕ → ExceptionType → ExceptionDoc → Bool
unfolding is_open
open_of deal kind x = x.deal =? some deal && is_exception x.exception_type kind && is_open x.status

unfoldable pub has_open_exception : Db → ℕ → ExceptionType → Bool
unfolding any open_of
has_open_exception db deal kind = any (open_of deal kind) db.exceptions

-- _validate_reconciled_gate
unfoldable pub validate_reconciled_gate : Db → Deal → Check
unfolding has_open_exception
validate_reconciled_gate db d =
    if is_status d.status DealStatus.reconciled
    then throw_if (not (is_set d.customer)) Error.customer_unresolved
      then_check throw_if (has_open_exception db d.name ExceptionType.buyer_unresolved)
          Error.buyer_exception_open
    else pass

-- The rate of _compute_amount: the proposed one while a counter waits, or without an approved one.
unfoldable pub amount_rate : DealStatus → ℤ → Option ℤ → ℤ
amount_rate DealStatus.countered proposed _ = proposed
amount_rate _ proposed none = proposed
amount_rate _ proposed (some rate) = rate

-- _compute_amount, in units of 10^-18
unfoldable pub compute_amount : Deal → Deal
unfolding amount_rate
compute_amount d = record d {
  amount = d.qty *ℤ amount_rate d.status d.proposed_rate d.approved_rate;
}

-- The last check of `validate`.
unfoldable pub validate_cancel_reason : Deal → Check
validate_cancel_reason d =
    throw_if (is_status d.status DealStatus.cancelled && not (is_set d.cancel_reason))
      Error.cancel_reason_required
