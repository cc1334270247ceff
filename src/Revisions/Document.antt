-- ===== src/Revisions/Document.antt =====
-- fresko_revision.py: the insert and the saves of a Revision. `allow` is the flag
-- allow_revision_apply.
use fresko_universe.Access.{is_applied}
use fresko_universe.Data.{Revision, RevisionStatus, FieldName}
use fresko_universe.Db.{
  Check, pass, throw_if, ◌then_check◌, M, ◌>>=◌, ◌>>◌, reads, check, get_revision, write_revision,
  Error,
}
use fresko_universe.Policy.{revision_eligible}
use fresko_universe.Prelude.{
  ℕ, Bool, true, false, ◌&&◌, ◌||◌, not, Option, none, some, ◌==◌, if◌then◌else◌, is_set, ◌=?◌,
}

abbrev pub is_pending : RevisionStatus → Bool
is_pending RevisionStatus.pending = true
is_pending _ = false

-- FreskoRevision.before_insert, of a controlled insert
unfoldable pub revision_before_insert : Revision → Check
revision_before_insert r =
    throw_if (not (is_set r.reason)) Error.reason_required
    then_check throw_if (not r.on_deal) Error.wrong_parent
    then_check throw_if (not (revision_eligible r.fieldname)) Error.field_not_eligible
    then_check throw_if (not (is_pending r.status)) Error.revision_not_pending

abbrev pub status_code : RevisionStatus → ℕ
status_code RevisionStatus.pending = 0
status_code RevisionStatus.applied = 1
status_code RevisionStatus.rejected = 2
status_code RevisionStatus.cancelled = 3

abbrev pub field_code : FieldName → ℕ
field_code FieldName.approved_rate = 0
field_code FieldName.qty = 1
field_code FieldName.lot_no = 2
field_code FieldName.container_lot = 3
field_code FieldName.customer = 4
field_code FieldName.item = 5
field_code FieldName.count_size = 6
field_code FieldName.ineligible = 7

-- Equality of `parent_doctype`, of which the model tells only whether it is the Deal.
abbrev pub same_parent : Bool → Bool → Bool
same_parent true b = b
same_parent false b = not b

-- "fieldname", "parent_doctype" or "parent_name" has changed.
unfoldable pub identity_changed : Revision → Revision → Bool
identity_changed old r =
    not (field_code r.fieldname == field_code old.fieldname)
    || not (same_parent r.on_deal old.on_deal)
    || not (r.parent_name == old.parent_name)

-- The link to the Approval may be set while the Revision is applied.
unfoldable pub may_link : Bool → Revision → Revision → Bool
may_link allow old r = is_pending old.status && is_applied r.status && allow

-- Some field of _HISTORICAL_FIELDS has changed that may not.
unfoldable pub history_changed : Bool → Revision → Revision → Bool
unfolding identity_changed may_link
history_changed allow old r =
    not (r.old_value =? old.old_value)
    || not (r.new_value =? old.new_value)
    || not (r.reason =? old.reason)
    || identity_changed old r
    || not (r.supporting_evidence =? old.supporting_evidence)
    || not (r.approval_reference =? old.approval_reference) && not (may_link allow old r)
    || not (r.changed_by == old.changed_by)

-- FreskoRevision.validate
unfoldable pub validate_revision : Bool → Option Revision → Revision → Check
unfolding history_changed identity_changed
validate_revision allow none r = pass
validate_revision allow (some old) r =
    if is_applied old.status || is_applied r.status
    then throw_if (not (status_code r.status == status_code old.status) && is_applied old.status)
        Error.revision_frozen
      then_check throw_if (history_changed allow old r) Error.revision_frozen
      then_check throw_if (is_pending old.status && is_applied r.status && not allow)
          Error.applied_only_by_apply
    else throw_if (not (r.old_value =? old.old_value)) Error.revision_frozen
      then_check throw_if (identity_changed old r) Error.revision_frozen

-- `rev.save()` of a Revision that is stored
unfoldable pub save_revision : Bool → Revision → M (Unit {0})
save_revision allow r = do
  old ← reads (get_revision r.name)
  check (validate_revision allow (some old) r)
  write_revision r
