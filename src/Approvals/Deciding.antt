-- ===== src/Approvals/Deciding.antt =====
-- decide of approvals.py.
use fresko_universe.Approvals.Recording.{is_override, insert_approval}
use fresko_universe.Ats.{available_to_sell}
use fresko_universe.Data.{
  Deal, ExceptionDoc, Session, is_status, DealStatus, Severity, ExceptionStatus, ExceptionType,
  Decision,
}
use fresko_universe.Db.{
  pass, throw_if, M, ◌>>=◌, ◌>>◌, pure, reads, check, write_deal, Db, ok, err, Error,
}
use fresko_universe.DealDoc.{save_deal}
use fresko_universe.Deals.{set_status, set_status_and_rate, locked_deal}
use fresko_universe.Exceptions.{
  open_exception, maybe_open_buyer_unresolved, get_open_rate_floor_breach,
  transition_rate_floor_breach, settled,
}
use fresko_universe.Prelude.{
  ℕ, Bool, true, false, ◌&&◌, ◌||◌, not, Option, none, some, Ref, is_set, or_else,
}
use fresko_universe.Prelude.Int.{ltb_ℤ, ℤ}

abbrev pub is_invalid : Decision → Bool
is_invalid Decision.invalid = true
is_invalid _ = false

abbrev pub name_of : Option ExceptionDoc → Ref
name_of none = none
name_of (some x) = some x.name

unfoldable pub approved_by : ℕ → ℤ → Deal → Deal
approved_by approval rate d = record d {
  approved_rate = some rate;
  approval = some approval;
  approval_required = false;
  status = DealStatus.approved;
}

-- The Exception of an oversell: one is opened only where the quantity exceeds what is available.
unfoldable pub oversell_exception : Bool → Deal → M Ref
oversell_exception false d = pure none
oversell_exception true d = do
  x ← open_exception d ExceptionType.oversell_override Severity.critical
  pure (some x.name)

abbrev pub approve_kind : Bool → Decision
approve_kind true = Decision.oversell_override
approve_kind false = Decision.approve

-- The branch APPROVE of decide, once the available quantity is read.
unfoldable pub decide_approve_at : Session → Deal → ℤ → Ref → Bool → Ref → ℤ → M Deal
decide_approve_at s d rate reason oversell breach ats = do
  check (throw_if (ltb_ℤ ats d.qty && not oversell) Error.exceeds_ats)
  x ← oversell_exception (ltb_ℤ ats d.qty) d
  a ←
      insert_approval s d (approve_kind oversell) (some rate) reason oversell (or_else x breach)
        none
  maybe_open_buyer_unresolved (approved_by a.name rate d)
  transition_rate_floor_breach (approved_by a.name rate d) a.exception (settled d rate)
  save_deal set_status_and_rate (approved_by a.name rate d)

-- The branch APPROVE of decide.
unfoldable pub decide_approve : Session → Deal → ℤ → Ref → Bool → Ref → M Deal
decide_approve s d rate reason oversell breach = do
  ats ← reads (available_to_sell d.container d.lot_no (some d.name))
  decide_approve_at s d rate reason oversell breach ats

unfoldable pub countered_by : ℕ → Deal → Deal
countered_by approval d = record d { approval = some approval; status = DealStatus.countered }

unfoldable pub without_rate : Deal → Deal
without_rate d = record d { approved_rate = none }

-- The branch COUNTER of decide: the rate stays on the Approval.
unfoldable pub decide_counter : Session → Deal → Option ℤ → Ref → Ref → M Deal
decide_counter s d rate reason breach = do
  check (throw_if (not (is_set rate)) Error.counter_requires_rate)
  a ← insert_approval s d Decision.counter rate reason false breach none
  transition_rate_floor_breach (countered_by a.name d) a.exception ExceptionStatus.in_progress
  saved ← save_deal set_status_and_rate (countered_by a.name d)
  write_deal (without_rate saved)
  pure (without_rate saved)

unfoldable pub rejected_by : ℕ → Deal → Deal
rejected_by approval d = record d { approval = some approval; status = DealStatus.rejected }

-- The branch REJECT of decide.
unfoldable pub decide_reject : Session → Deal → Option ℤ → Ref → Ref → M Deal
decide_reject s d rate reason breach = do
  a ← insert_approval s d Decision.reject rate reason false breach none
  transition_rate_floor_breach (rejected_by a.name d) a.exception ExceptionStatus.resolved
  save_deal set_status (rejected_by a.name d)

abbrev pub rate_or : Option ℤ → ℤ → ℤ
rate_or none z = z
rate_or (some rate) z = rate

-- The branch that the decision takes.
unfoldable pub decide_branch : Session → Deal → Decision → Option ℤ → Ref → Bool → Ref → M Deal
decide_branch s d Decision.approve rate reason oversell breach =
    decide_approve s d (rate_or rate d.proposed_rate) reason oversell breach
decide_branch s d Decision.oversell_override rate reason oversell breach =
    decide_approve s d (rate_or rate d.proposed_rate) reason true breach
decide_branch s d Decision.counter rate reason oversell breach =
    decide_counter s d rate reason breach
decide_branch s d Decision.reject rate reason oversell breach = decide_reject s d rate reason breach
decide_branch s d Decision.invalid rate reason oversell breach =
    reads λ _. err Error.invalid_decision

-- decide
unfoldable pub decide : Session → Db → ℕ → Decision → Option ℤ → Ref → Bool → M Deal
decide s before n decision rate reason oversell = do
  check (throw_if (is_invalid decision) Error.invalid_decision)
  check (throw_if (not (is_set reason)) Error.reason_required)
  check (throw_if (not (s.approver || s.system_manager)) Error.permission_denied)
  deal ← locked_deal before n (λ _. pass)
  check (throw_if (not (is_status deal.status DealStatus.approval_required)) Error.wrong_status)
  check (
      throw_if ((is_override decision || oversell) && not s.system_manager)
        Error.oversell_restricted)
  breach ← reads λ db. ok (name_of (get_open_rate_floor_breach deal db))
  decide_branch s deal decision rate reason oversell breach
