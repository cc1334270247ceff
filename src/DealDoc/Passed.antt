-- ===== src/DealDoc/Passed.antt =====
-- The checks that a saved Deal passed, one by one, and what the save leaves.
use fresko_universe.Data.{Deal, Flags}
use fresko_universe.Db.{pass, deal_key, Result-cases, then_check-pass, Db, ok}
use fresko_universe.DealDoc.{
  validate_buyer_alias, validate_idempotency_keys, validate_status_transition,
  enforce_commercial_lock, enforce_dispatched_qty_lock, validate_reconciled_gate, compute_amount,
  validate_cancel_reason, validate_rest, validate, save_deal,
}
use fresko_universe.DealDoc.Kept.{validate-Validated, SameCore, Validated}
use fresko_universe.Prelude.{◌≡◌, subst, inl, inr, Option, arith, find, put}

-- The checks of a Deal that is saved, one by one.
pub record Passed (db : Db) (flags : Flags) (old : Option Deal) (d : Deal) : Type 0 where
  pub alias : validate_buyer_alias old d ≡ pass
  pub keys : validate_idempotency_keys db old d ≡ pass
  pub transition : validate_status_transition flags old d ≡ pass
  pub lock : enforce_commercial_lock flags old d ≡ pass
  pub dispatch : enforce_dispatched_qty_lock flags old d ≡ pass
  pub reconciled : validate_reconciled_gate db d ≡ pass
  pub reason : validate_cancel_reason d ≡ pass

validate_rest-Passed :
    (db : Db) (flags : Flags) (old : Option Deal) (d : Deal)
    → validate_rest db flags old d ≡ pass
    → Passed db flags old d
unfolding validate_rest
validate_rest-Passed db flags old d h =
    let (h6, reason) = then_check-pass _ (validate_cancel_reason d) h in
    let (h5, reconciled) = then_check-pass _ (validate_reconciled_gate db d) h6 in
    let (h4, dispatch) = then_check-pass _ (enforce_dispatched_qty_lock flags old d) h5 in
    let (h3, lock) = then_check-pass _ (enforce_commercial_lock flags old d) h4 in
    let (h2, transition) = then_check-pass _ (validate_status_transition flags old d) h3 in
    let (alias, keys) = then_check-pass (validate_buyer_alias old d) _ h2 in
    record {
      alias = alias;
      keys = keys;
      transition = transition;
      lock = lock;
      dispatch = dispatch;
      reconciled = reconciled;
      reason = reason;
    }

pub Validated-Passed :
    {db : Db} {flags : Flags} {old : Option Deal} {d d' : Deal} (v : Validated db flags old d d')
    → Passed db flags old v.before
Validated-Passed {db} {flags} {old} v = validate_rest-Passed db flags old v.before v.rest

pub Validated-SameCore :
    {db : Db} {flags : Flags} {old : Option Deal} {d d' : Deal}
    → Validated db flags old d d'
    → SameCore d d'
unfolding compute_amount
Validated-SameCore {d} v = subst (SameCore d) v.stored (let s = v.same in ground arith)

-- What `save_deal` returns, and the table that it leaves.
pub save_deal-ok :
    (flags : Flags) (d d' : Deal) (db db' : Db)
    → save_deal flags d db ≡ ok (d', db')
    → Validated db flags (find deal_key d.name db.deals) d d'
      × (record db { deals = put deal_key d' db.deals } ≡ db')
unfolding save_deal
save_deal-ok flags d d' db db' h =
    elim (Result-cases (validate db flags (find deal_key d.name db.deals) d)) [
      | inr (e, failed) ↦ let g = (rw (failed, save_deal) at h) in absurd (cc)
      | inl (x, e) ↦
          let g = (rw (e, save_deal) at h) in
          let q : x ≡ d' = cc in (validate-Validated db flags _ d d' (rw e (cc)), rw (← q) (cc))
    ]
