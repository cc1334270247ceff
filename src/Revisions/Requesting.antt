-- ===== src/Revisions/Requesting.antt =====
-- request_revision and create_revision_approval.
use fresko_universe.Access.{assert_can_work_on_deal, assert_can_apply_revision}
use fresko_universe.Approvals.{insert_approval, rate_or}
use fresko_universe.Data.{Deal, Approval, Revision, Session, Decision, RevisionStatus, FieldName}
use fresko_universe.Db.{
  Check, throw_if, M, ◌>>=◌, ◌>>◌, pure, reads, check, get_deal, get_revision, write_revision,
  fresh, Error,
}
use fresko_universe.Policy.{commercially_locked, revision_eligible, is_material_field}
use fresko_universe.Prelude.{ℕ, Bool, true, false, ◌&&◌, not, Option, none, some, Ref, is_set}
use fresko_universe.Prelude.Int.{ℤ}
use fresko_universe.Revisions.Document.{is_pending, revision_before_insert}
use fresko_universe.Revisions.Fields.{field_text, Texts}

-- Evidence is required for a material field once the Deal is commercially locked.
unfoldable pub assert_evidence : FieldName → Ref → Deal → Check
assert_evidence field evidence d =
    throw_if (is_material_field field && not (is_set evidence) && commercially_locked d.status)
      Error.evidence_required

unfoldable pub revision_row : Texts → Session → Deal → FieldName → Ref → Ref → Ref → ℕ → Revision
revision_row t s d field new_value reason evidence n = record {
  name = n;
  on_deal = true;
  parent_name = d.name;
  fieldname = field;
  old_value = field_text t field d;
  new_value = new_value;
  reason = reason;
  supporting_evidence = evidence;
  status = RevisionStatus.pending;
  approval_reference = none;
  changed_by = s.user;
}

-- request_revision
unfoldable pub request_revision : Texts → Session → ℕ → FieldName → Ref → Ref → Ref → M Revision
request_revision t s n field new_value reason evidence = do
  check (throw_if (not (is_set reason)) Error.reason_required)
  deal ← reads (get_deal n)
  check (assert_can_work_on_deal s deal)
  check (throw_if (not (revision_eligible field)) Error.field_not_eligible)
  check (assert_evidence field evidence deal)
  m ← fresh
  check (revision_before_insert (revision_row t s deal field new_value reason evidence m))
  write_revision (revision_row t s deal field new_value reason evidence m)
  pure (revision_row t s deal field new_value reason evidence m)

abbrev pub is_approve : Decision → Bool
is_approve Decision.approve = true
is_approve _ = false

-- create_revision_approval
unfoldable pub create_revision_approval : Session → ℕ → Decision → Option ℤ → Ref → M Approval
create_revision_approval s n decision rate reason = do
  check (assert_can_apply_revision s)
  check (throw_if (not (is_approve decision)) Error.invalid_decision)
  check (throw_if (not (is_set reason)) Error.reason_required)
  rev ← reads (get_revision n)
  check (throw_if (not (is_pending rev.status)) Error.revision_not_pending)
  check (throw_if (not rev.on_deal) Error.wrong_parent)
  deal ← reads (get_deal rev.parent_name)
  a ←
      insert_approval s deal Decision.approve
        (some (rate_or rate (rate_or deal.approved_rate deal.proposed_rate))) reason false none
        (some rev.name)
  write_revision (record rev { approval_reference = some a.name })
  pure a
