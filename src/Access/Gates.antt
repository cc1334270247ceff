-- ===== src/Access/Gates.antt =====
-- The role gates of the whitelisted methods, and the binding of an Approval to a Revision.
use fresko_universe.Data.{Deal, Approval, Revision, Session, Decision, RevisionStatus}
use fresko_universe.Db.{Check, pass, throw_if, ◌then_check◌, Db, Error}
use fresko_universe.Prelude.{
  ℕ, Bool, true, false, ◌&&◌, ◌||◌, not, some, List, ◌==◌, if◌then◌else◌, is_set, ◌=?◌, any,
}

-- is_approver
unfoldable pub is_approver : Session → Bool
is_approver s = s.approver || s.system_manager

-- is_deal_owner_or_salesperson
unfoldable pub is_deal_owner_or_salesperson : Deal → ℕ → Bool
is_deal_owner_or_salesperson d user = d.owner == user || d.salesperson_user =? some user

-- assert_can_apply_rate_rules, assert_can_cancel_deal and assert_can_request_revision
unfoldable pub assert_can_work_on_deal : Session → Deal → Check
unfolding is_deal_owner_or_salesperson
assert_can_work_on_deal s d =
    if s.system_manager || s.approver
    then pass
    else throw_if (not (s.salesperson && is_deal_owner_or_salesperson d s.user))
        Error.permission_denied

-- assert_can_record_dispatch
unfoldable pub assert_can_record_dispatch : Session → Check
assert_can_record_dispatch s =
    throw_if (not (s.system_manager || s.approver)) Error.permission_denied

-- assert_can_apply_revision and assert_can_create_revision_approval
unfoldable pub assert_can_apply_revision : Session → Check
unfolding is_approver
assert_can_apply_revision s = throw_if (not (is_approver s)) Error.permission_denied

-- `decision in APPROVAL_APPLY_DECISIONS`
unfoldable pub may_apply : Decision → Bool
may_apply Decision.approve = true
may_apply _ = false

-- assert_approval_bound_for_revision
unfoldable pub assert_approval_bound_for_revision : Approval → Deal → Revision → Check
unfolding may_apply
assert_approval_bound_for_revision a d r =
    throw_if (not (a.deal == d.name)) Error.approval_other_deal
    then_check throw_if (not (may_apply a.decision)) Error.approval_not_approve
    then_check throw_if (not (is_set a.revision)) Error.approval_without_revision
    then_check throw_if (not (a.revision =? some r.name)) Error.approval_other_revision

-- assert_approval_not_consumed
unfoldable pub assert_approval_not_consumed : Approval → Check
assert_approval_not_consumed a = throw_if a.consumed Error.approval_consumed

abbrev pub is_applied : RevisionStatus → Bool
is_applied RevisionStatus.applied = true
is_applied _ = false

-- Another Revision has been applied by this Approval.
unfoldable pub applied_elsewhere : Approval → ℕ → List Revision → Bool
unfolding any
applied_elsewhere a revision =
    any λ r. r.approval_reference =? some a.name && is_applied r.status && not (r.name == revision)

-- assert_approval_not_stale
unfoldable pub assert_approval_not_stale : Approval → ℕ → Db → Check
assert_approval_not_stale a revision db =
    throw_if a.consumed Error.approval_stale
    then_check throw_if (applied_elsewhere a revision db.revisions) Error.approval_stale

-- assert_can_prepare_outward, assert_can_prepare_field_assertion and
-- assert_can_prepare_quantity_assertion
unfoldable pub assert_can_prepare_outward : Session → Check
assert_can_prepare_outward s =
    throw_if (not (s.system_manager || s.salesperson || s.approver)) Error.permission_denied

-- assert_can_post_outward, assert_can_activate_field_assertion,
-- assert_can_activate_quantity_assertion and assert_can_run_integrity_check
unfoldable pub assert_can_post_outward : Session → Check
assert_can_post_outward s = throw_if (not (s.system_manager || s.approver)) Error.permission_denied

-- assert_can_read_ats_snapshot
unfoldable pub assert_can_read_ats_snapshot : Session → Check
assert_can_read_ats_snapshot s =
    throw_if (not (s.system_manager || s.salesperson || s.approver || s.accounts))
      Error.permission_denied
