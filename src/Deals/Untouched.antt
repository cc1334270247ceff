-- ===== src/Deals/Untouched.antt =====
-- Opening and settling Exceptions leaves the Deals, the Containers and the assertions alone.
use fresko_universe.Data.{Deal, ExceptionDoc, Severity, ExceptionStatus, ExceptionType}
use fresko_universe.Db.Frame.{SameStock-pure, SameStock, stock_rules}
use fresko_universe.Db.Relates.{Relates}
use fresko_universe.Deals.{rate_accepted, rate_branches}
use fresko_universe.Exceptions.{
  open_exception, reuse_or_open, ensure_open_exception, maybe_open_buyer_unresolved,
  set_exception_status, transition_rate_floor_breach,
}
use fresko_universe.Prelude.{Option, none, some, Ref}
use fresko_universe.Prelude.Int.{ℤ}

pub open_exception-SameStock :
    (d : Deal) (kind : ExceptionType) (severity : Severity)
    → Relates SameStock (open_exception d kind severity)
unfolding open_exception
open_exception-SameStock d kind severity = search stock_rules

reuse_or_open-SameStock :
    (o : Option ExceptionDoc) (d : Deal) (kind : ExceptionType) (severity : Severity)
    → Relates SameStock (reuse_or_open o d kind severity)
unfolding reuse_or_open
reuse_or_open-SameStock none d kind severity = open_exception-SameStock d kind severity
reuse_or_open-SameStock (some x) d kind severity = SameStock-pure x

pub ensure_open_exception-SameStock :
    (d : Deal) (kind : ExceptionType) (severity : Severity)
    → Relates SameStock (ensure_open_exception d kind severity)
unfolding ensure_open_exception
ensure_open_exception-SameStock d kind severity = search (stock_rules, reuse_or_open-SameStock)

pub maybe_open_buyer_unresolved-SameStock :
    (d : Deal) → Relates SameStock (maybe_open_buyer_unresolved d)
unfolding maybe_open_buyer_unresolved
maybe_open_buyer_unresolved-SameStock d = search (stock_rules, ensure_open_exception-SameStock)

set_exception_status-SameStock :
    (o : Option ExceptionDoc) (status : ExceptionStatus)
    → Relates SameStock (set_exception_status o status)
unfolding set_exception_status
set_exception_status-SameStock none status = SameStock-pure tt
set_exception_status-SameStock (some x) status = search stock_rules

pub transition_rate_floor_breach-SameStock :
    (d : Deal) (exception : Ref) (status : ExceptionStatus)
    → Relates SameStock (transition_rate_floor_breach d exception status)
unfolding transition_rate_floor_breach
transition_rate_floor_breach-SameStock d exception status =
    search (stock_rules, set_exception_status-SameStock)

pub ruleset untouched_rules = (
  stock_rules, open_exception-SameStock, ensure_open_exception-SameStock,
  maybe_open_buyer_unresolved-SameStock, transition_rate_floor_breach-SameStock,
)

rate_accepted-SameStock : (d : Deal) (ats : ℤ) → Relates SameStock (rate_accepted d ats)
unfolding rate_accepted
rate_accepted-SameStock d ats = search untouched_rules

pub rate_branches-SameStock : (d : Deal) → Relates SameStock (rate_branches d)
unfolding rate_branches
rate_branches-SameStock d = search (untouched_rules, rate_accepted-SameStock)
