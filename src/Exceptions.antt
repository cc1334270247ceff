-- ===== src/Exceptions.antt =====
-- The Exceptions that deals.py and approvals.py open, reuse and settle. Descriptions, notes and
-- stamps are not modelled.
use fresko_universe.Data.{
  no_scope, Deal, ExceptionDoc, is_exception, Severity, ExceptionStatus, ExceptionType,
}
use fresko_universe.Db.{
  M, ◌>>=◌, ◌>>◌, pure, reads, modify, exception_key, write_exception, fresh, Db, Result, ok, err,
  Error,
}
use fresko_universe.DealDoc.{open_of}
use fresko_universe.Prelude.{
  ℕ, Bool, false, not, Option, none, some, List, [], ◌∷◌, if◌then◌else◌, Ref, is_set, or_else,
  find_by, find,
}
use fresko_universe.Prelude.Int.{ℤ}
use fresko_universe.RateRules.{policy_resolved, rate_in_band}

-- _open_exception
unfoldable pub open_exception : Deal → ExceptionType → Severity → M ExceptionDoc
open_exception d kind severity = do
  n ← fresh
  let x : ExceptionDoc = record {
    name = n;
    exception_type = kind;
    severity = severity;
    status = ExceptionStatus.open_;
    deal = some d.name;
    container = some d.container;
    collection = none;
    money_company = none;
    money_scope_key = none;
    commercial_scope_key = none;
    sale = none;
    scope = no_scope;
  }
  write_exception x
  pure x

-- The first open Exception of that type on the Deal.
unfoldable pub first_open : ℕ → ExceptionType → Db → Option ExceptionDoc
first_open deal kind db = find_by (open_of deal kind) db.exceptions

-- What is opened when there is none yet.
unfoldable pub reuse_or_open :
    Option ExceptionDoc → Deal → ExceptionType → Severity → M ExceptionDoc
reuse_or_open (some x) d kind severity = pure x
reuse_or_open none d kind severity = open_exception d kind severity

-- _ensure_open_exception
unfoldable pub ensure_open_exception : Deal → ExceptionType → Severity → M ExceptionDoc
ensure_open_exception d kind severity = do
  old ← reads λ db. ok (first_open d.name kind db)
  reuse_or_open old d kind severity

-- _maybe_open_buyer_unresolved
unfoldable pub maybe_open_buyer_unresolved : Deal → M (Unit {0})
maybe_open_buyer_unresolved d =
    if is_set d.customer
    then pure tt
    else (ensure_open_exception d ExceptionType.buyer_unresolved Severity.material >> pure tt)

-- _get_open_rate_floor_breach
unfoldable pub get_open_rate_floor_breach : Deal → Db → Option ExceptionDoc
get_open_rate_floor_breach d db = first_open d.name ExceptionType.rate_floor_breach db

-- The Exception that the Approval names, if it is a rate-floor breach; one that is not there is
-- an error.
unfoldable pub named_breach : Ref → Db → Result (Option ExceptionDoc)
named_breach none db = ok none
named_breach (some n) db = elim (find exception_key n db.exceptions) [
  | none ↦ err Error.not_found
  | some x ↦
      ok (if is_exception x.exception_type ExceptionType.rate_floor_breach then some x else none)
]

-- The Exception that _transition_rate_floor_breach is about.
unfoldable pub breach_of : Deal → Ref → Db → Result (Option ExceptionDoc)
breach_of d exception db = elim (named_breach exception db) [
  | err e ↦ err e
  | ok x ↦ ok (or_else x (get_open_rate_floor_breach d db))
]

unfoldable pub set_exception_status : Option ExceptionDoc → ExceptionStatus → M (Unit {0})
set_exception_status none status = pure tt
set_exception_status (some x) status = write_exception (record x { status = status })

-- _transition_rate_floor_breach
unfoldable pub transition_rate_floor_breach : Deal → Ref → ExceptionStatus → M (Unit {0})
transition_rate_floor_breach d exception status = do
  x ← reads (breach_of d exception)
  set_exception_status x status

-- _rate_is_within_stored_band
unfoldable pub rate_is_within_stored_band : Deal → ℤ → Bool
rate_is_within_stored_band d rate =
    if not (policy_resolved d.rate_floor d.rate_ceiling)
    then false
    else rate_in_band rate d.rate_floor d.rate_ceiling

-- How a decision on the rate settles the breach.
unfoldable pub settled : Deal → ℤ → ExceptionStatus
settled d rate =
    if rate_is_within_stored_band d rate then ExceptionStatus.resolved else ExceptionStatus.waived

-- The rows of _resolve_buyer_exceptions.
unfoldable pub resolve_open : (ExceptionDoc → Bool) → List ExceptionDoc → List ExceptionDoc
resolve_open p [] = []
resolve_open p (x ∷ xs) =
    (if p x then record x { status = ExceptionStatus.resolved } else x) ∷ resolve_open p xs

-- _resolve_buyer_exceptions
unfoldable pub resolve_buyer_exceptions : ℕ → M (Unit {0})
resolve_buyer_exceptions deal = modify λ db. record db {
  exceptions = resolve_open (open_of deal ExceptionType.buyer_unresolved) db.exceptions;
}
