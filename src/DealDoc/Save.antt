-- ===== src/DealDoc/Save.antt =====
-- FreskoDeal.validate in its order, and the save and insert of a Deal.
use fresko_universe.Prelude.{ℕ, Option, none, some, find, put, or_else, if◌then◌else◌, ◌+◌}
use fresko_universe.Data.{Deal, Flags, no_flags, DealStatus, is_status}
use fresko_universe.Db.{Db, Result, ok, err, M, Check, ◌then_check◌, Error, deal_key}
use fresko_universe.DealDoc.Checks.{
  fetch_defaults_from_container, validate_qty, validate_lot_belongs_to_container,
  validate_buyer_alias, validate_idempotency_keys, validate_status_transition,
  enforce_commercial_lock, enforce_dispatched_qty_lock, validate_reconciled_gate, compute_amount,
  validate_cancel_reason,
}

-- The checks that follow the lot's, on the Deal with its defaults.
unfoldable pub validate_rest : Db → Flags → Option Deal → Deal → Check
unfolding validate_buyer_alias validate_idempotency_keys validate_status_transition
    enforce_commercial_lock enforce_dispatched_qty_lock validate_reconciled_gate
validate_rest db flags old d =
    validate_buyer_alias old d
    then_check validate_idempotency_keys db old d
    then_check validate_status_transition flags old d
    then_check enforce_commercial_lock flags old d
    then_check enforce_dispatched_qty_lock flags old d
    then_check validate_reconciled_gate db d
    then_check validate_cancel_reason d

-- A Deal passes a row of checks.
abbrev pub passing : Check → Deal → Result Deal
passing (ok _) d = ok d
passing (err e) d = err e

abbrev pub and_then : Result Deal → (Deal → Result Deal) → Result Deal
and_then (ok d) f = f d
and_then (err e) f = err e

-- FreskoDeal.validate: the Deal as it is stored
unfoldable pub validate : Db → Flags → Option Deal → Deal → Result Deal
unfolding fetch_defaults_from_container validate_lot_belongs_to_container
validate db flags old d = and_then (fetch_defaults_from_container db d) λ d1.
    and_then (passing (validate_qty d1) d1) λ d2.
      and_then (validate_lot_belongs_to_container db d2)
        λ d3. passing (validate_rest db flags old d3) (compute_amount d3)

-- `deal.save()`: the stored Deal of its name is the one before
unfoldable pub save_deal : Flags → Deal → M Deal
unfolding validate find put
save_deal flags d db = elim (validate db flags (find deal_key d.name db.deals) d) [
  | err e ↦ err e
  | ok d' ↦ ok (d', record db { deals = put deal_key d' db.deals })
]

-- FreskoDeal.before_insert; `fingerprint` stands for make_fingerprint
unfoldable pub before_insert : (Deal → ℕ) → Deal → Deal
before_insert fingerprint d = record d {
  status = DealStatus.proposed;
  duplicate_fingerprint = or_else d.duplicate_fingerprint (some (fingerprint d));
}

-- `deal.insert()`
unfoldable pub insert_deal : (Deal → ℕ) → Deal → M Deal
unfolding before_insert validate put
insert_deal fingerprint d db =
    if is_status d.status DealStatus.proposed
    then elim (validate db no_flags none
        (record (before_insert fingerprint d) { name = db.next_name })) [
          | err e ↦ err e
          | ok d' ↦
              ok (d', record db { deals = put deal_key d' db.deals; next_name = db.next_name + 1 })
        ]
    else err Error.must_start_proposed
