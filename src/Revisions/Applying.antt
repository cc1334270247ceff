-- ===== src/Revisions/Applying.antt =====
-- apply_revision.
use fresko_universe.Access.{
  assert_can_apply_revision, assert_approval_bound_for_revision, assert_approval_not_consumed,
  assert_approval_not_stale,
}
use fresko_universe.Ats.{assert_ats}
use fresko_universe.Data.{
  Deal, Approval, Revision, no_flags, Session, Flags, RevisionStatus, FieldName,
}
use fresko_universe.Db.{
  Check, pass, throw_if, ◌then_check◌, M, ◌>>=◌, ◌>>◌, pure, reads, check, approval_key, get_deal,
  get_revision, write_approval, Db, Result, ok, err, Error,
}
use fresko_universe.DealDoc.{save_deal}
use fresko_universe.Exceptions.{resolve_buyer_exceptions}
use fresko_universe.Policy.{revision_eligible, is_material_field}
use fresko_universe.Prelude.{
  ℕ, true, ◌&&◌, not, Option, none, some, if◌then◌else◌, Ref, is_set, or_else, find,
}
use fresko_universe.Revisions.Document.{is_pending, save_revision}
use fresko_universe.Revisions.Fields.{
  set_field, assert_old_value_matches, needs_ats, is_rate, is_customer, probe_lot, probe_qty, Texts,
}
use fresko_universe.Revisions.Requesting.{assert_evidence}

-- The checks of a material revision against its Approval, in their order.
unfoldable pub material_checks : Texts → Revision → Deal → Approval → Db → Check
material_checks t r d a db =
    assert_approval_bound_for_revision a d r
    then_check assert_approval_not_consumed a
    then_check assert_approval_not_stale a r.name db
    then_check assert_old_value_matches t d r
    then_check assert_evidence r.fieldname r.supporting_evidence d
    then_check (if needs_ats r.fieldname
        then assert_ats d.container (probe_lot r d) (some d.name) (probe_qty t r d)
            Error.exceeds_ats db
        else pass)

-- The Approval of a material revision, once it has passed the checks; none for another field.
unfoldable pub approval_for : Texts → Revision → Deal → Ref → Db → Result (Option Approval)
approval_for t r d none db =
    if is_material_field r.fieldname then err Error.approval_required else ok none
approval_for t r d (some ref) db =
    if is_material_field r.fieldname
    then elim (find approval_key ref db.approvals) [
      | none ↦ err Error.approval_missing
      | some a ↦ elim (material_checks t r d a db) [ ok _ ↦ ok (some a) | err e ↦ err e ]
    ]
    else ok none

-- The flags of the Deal's save.
unfoldable pub revision_flags : FieldName → Flags
revision_flags field = record no_flags {
  allow_commercial_revision = true;
  allow_approval_write = is_rate field;
}

unfoldable pub consume : Option Approval → M (Unit {0})
consume none = pure tt
consume (some a) = write_approval (record a { consumed = true })

unfoldable pub applied_row : Revision → Ref → Revision
applied_row r reference = record r {
  status = RevisionStatus.applied;
  approval_reference = reference;
}

-- The reference that the Revision keeps: the one that was used, or the one that was passed.
unfoldable pub reference_kept : Revision → Ref → Option Approval → Ref
reference_kept r passed none = or_else passed r.approval_reference
reference_kept r passed (some a) = some a.name

-- The buyer's Exceptions are resolved once a customer is set.
unfoldable pub settle_buyer : Revision → M (Unit {0})
settle_buyer r =
    if is_customer r.fieldname && is_set r.new_value
    then resolve_buyer_exceptions r.parent_name
    else pure tt

-- apply_revision
unfoldable pub apply_revision : Texts → Session → ℕ → Ref → M Revision
apply_revision t s n passed = do
  check (assert_can_apply_revision s)
  rev ← reads (get_revision n)
  check (throw_if (not (is_pending rev.status)) Error.revision_not_pending)
  check (throw_if (not rev.on_deal) Error.wrong_parent)
  deal ← reads (get_deal rev.parent_name)
  check (throw_if (not (revision_eligible rev.fieldname)) Error.field_not_eligible)
  a ← reads (approval_for t rev deal (or_else passed rev.approval_reference))
  save_deal (revision_flags rev.fieldname) (set_field t rev.fieldname rev.new_value deal)
  save_revision true (applied_row rev (reference_kept rev passed a))
  consume a
  settle_buyer rev
  pure (applied_row rev (reference_kept rev passed a))
