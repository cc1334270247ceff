-- ===== src/Deals/Steps.antt =====
-- Every whitelisted method of deals.py keeps a relation that saves and single writes keep.
use fresko_universe.Data.{Deal, ExceptionDoc, Session, Severity, ExceptionStatus, ExceptionType}
use fresko_universe.Db.{Check, Db}
use fresko_universe.Db.Relates.{Relates}
use fresko_universe.DealDoc.Closed.{pure_rule, Closed, closed_rules}
use fresko_universe.DealDoc.Evolves.{SameTrack}
use fresko_universe.Deals.{
  accept_counter, locked_deal, cancel_deal, advance_to_legacy_outward_pending,
  record_dispatch_locked, record_dispatch, rate_accepted, rate_branches, null_fields,
  apply_rate_rules,
}
use fresko_universe.Exceptions.{
  open_exception, reuse_or_open, ensure_open_exception, maybe_open_buyer_unresolved,
  set_exception_status, transition_rate_floor_breach,
}
use fresko_universe.Prelude.{ℕ, Option, none, some, arith, Ref}
use fresko_universe.Prelude.Int.{ℤ}

module _ {R : Db → Db → Type 0} (c : Closed R) where
  pub open_exception-Relates :
      (d : Deal) (kind : ExceptionType) (severity : Severity)
      → Relates R (open_exception d kind severity)
  unfolding open_exception
  open_exception-Relates d kind severity = search closed_rules

  reuse_or_open-Relates :
      (o : Option ExceptionDoc) (d : Deal) (kind : ExceptionType) (severity : Severity)
      → Relates R (reuse_or_open o d kind severity)
  unfolding reuse_or_open
  reuse_or_open-Relates none d kind severity = open_exception-Relates d kind severity
  reuse_or_open-Relates (some x) d kind severity = pure_rule c x

  pub ensure_open_exception-Relates :
      (d : Deal) (kind : ExceptionType) (severity : Severity)
      → Relates R (ensure_open_exception d kind severity)
  unfolding ensure_open_exception
  ensure_open_exception-Relates d kind severity = search (closed_rules, reuse_or_open-Relates)

  pub maybe_open_buyer_unresolved-Relates : (d : Deal) → Relates R (maybe_open_buyer_unresolved d)
  unfolding maybe_open_buyer_unresolved
  maybe_open_buyer_unresolved-Relates d = search (closed_rules, ensure_open_exception-Relates)

  set_exception_status-Relates :
      (o : Option ExceptionDoc) (status : ExceptionStatus)
      → Relates R (set_exception_status o status)
  unfolding set_exception_status
  set_exception_status-Relates none status = pure_rule c tt
  set_exception_status-Relates (some x) status = search closed_rules

  pub transition_rate_floor_breach-Relates :
      (d : Deal) (exception : Ref) (status : ExceptionStatus)
      → Relates R (transition_rate_floor_breach d exception status)
  unfolding transition_rate_floor_breach
  transition_rate_floor_breach-Relates d exception status =
      search (closed_rules, set_exception_status-Relates)

  pub locked_deal-Relates :
      (before : Db) (n : ℕ) (gate : Deal → Check) → Relates R (locked_deal before n gate)
  unfolding locked_deal
  locked_deal-Relates before n gate = search closed_rules

pub ruleset deal_rules = (
  closed_rules, open_exception-Relates, ensure_open_exception-Relates,
  maybe_open_buyer_unresolved-Relates, transition_rate_floor_breach-Relates, locked_deal-Relates,
)

null_fields-SameTrack : (d : Deal) → SameTrack d (null_fields d)
unfolding null_fields
null_fields-SameTrack d = ground arith

module _ {R : Db → Db → Type 0} (c : Closed R) where
  rate_accepted-Relates : (d : Deal) (ats : ℤ) → Relates R (rate_accepted d ats)
  unfolding rate_accepted
  rate_accepted-Relates d ats = search deal_rules

  rate_branches-Relates : (d : Deal) → Relates R (rate_branches d)
  unfolding rate_branches
  rate_branches-Relates d = search (deal_rules, rate_accepted-Relates)

  pub apply_rate_rules-Relates :
      (s : Session) (before : Db) (n : ℕ) → Relates R (apply_rate_rules s before n)
  unfolding apply_rate_rules
  apply_rate_rules-Relates s before n =
      search (deal_rules, rate_branches-Relates, c.deal_rewritten, null_fields-SameTrack) depth 9

  pub accept_counter-Relates :
      (s : Session) (before : Db) (n : ℕ) → Relates R (accept_counter s before n)
  unfolding accept_counter
  accept_counter-Relates s before n = search deal_rules depth 10

  pub cancel_deal-Relates :
      (s : Session) (n : ℕ) (reason : Ref) → Relates R (cancel_deal s n reason)
  unfolding cancel_deal
  cancel_deal-Relates s n reason = search deal_rules depth 7

  pub advance_to_legacy_outward_pending-Relates :
      (s : Session) (before : Db) (n : ℕ) → Relates R (advance_to_legacy_outward_pending s before n)
  unfolding advance_to_legacy_outward_pending
  advance_to_legacy_outward_pending-Relates s before n = search deal_rules depth 8

  record_dispatch_locked-Relates : (d : Deal) (qty : ℤ) → Relates R (record_dispatch_locked d qty)
  unfolding record_dispatch_locked
  record_dispatch_locked-Relates d qty = search deal_rules depth 7

  pub record_dispatch-Relates :
      (s : Session) (before : Db) (n : ℕ) (qty : ℤ) → Relates R (record_dispatch s before n qty)
  unfolding record_dispatch
  record_dispatch-Relates s before n qty =
      search (deal_rules, record_dispatch_locked-Relates) depth 7
