-- ===== src/Approvals/Recording.antt =====
-- Fresko Approval: FreskoApproval.before_insert and validate, and _insert_approval.
use fresko_universe.Data.{Deal, Approval, Revision, Session, Decision}
use fresko_universe.Db.{
  Check, pass, throw_if, ◌then_check◌, M, ◌>>=◌, ◌>>◌, pure, reads, check, revision_key,
  write_approval, fresh, Db, err, Error,
}
use fresko_universe.Prelude.{
  ℕ, Bool, true, false, ◌&&◌, ◌||◌, not, Option, none, some, ◌==◌, Ref, find,
}
use fresko_universe.Prelude.Int.{ℤ}

abbrev pub is_override : Decision → Bool
is_override Decision.oversell_override = true
is_override _ = false

-- FreskoApproval.before_insert, for a controlled insert
unfoldable pub approval_before_insert : Session → Decision → Bool → Check
approval_before_insert s decision oversell =
    throw_if ((is_override decision || oversell) && not s.system_manager) Error.oversell_restricted

unfoldable pub revision_binds : ℕ → Option Revision → Check
revision_binds deal none = err Error.not_found
revision_binds deal (some r) =
    throw_if (not r.on_deal) Error.wrong_parent
    then_check throw_if (not (r.parent_name == deal)) Error.approval_other_deal

-- FreskoApproval.validate, of a new Approval
unfoldable pub validate_approval : ℕ → Ref → Db → Check
validate_approval deal none db = pass
validate_approval deal (some r) db = revision_binds deal (find revision_key r db.revisions)

-- The row that _insert_approval fills in.
unfoldable pub approval_row :
    Session → Deal → Decision → Option ℤ → Ref → Bool → Ref → Ref → ℕ → Approval
approval_row s d decision rate reason oversell exception revision n = record {
  name = n;
  deal = d.name;
  revision = revision;
  decision = decision;
  decision_rate = rate;
  proposed_rate = d.proposed_rate;
  rate_floor = d.rate_floor;
  rate_ceiling = d.rate_ceiling;
  approver = s.user;
  reason = reason;
  oversell_override = oversell;
  exception = exception;
  consumed = false;
}

-- _insert_approval
unfoldable pub insert_approval :
    Session → Deal → Decision → Option ℤ → Ref → Bool → Ref → Ref → M Approval
insert_approval s d decision rate reason oversell exception revision = do
  check (approval_before_insert s decision oversell)
  reads (validate_approval d.name revision)
  n ← fresh
  write_approval (approval_row s d decision rate reason oversell exception revision n)
  pure (approval_row s d decision rate reason oversell exception revision n)
