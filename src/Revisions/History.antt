-- ===== src/Revisions/History.antt =====
-- What the saves of a Revision keep.
use fresko_universe.Access.{is_applied}
use fresko_universe.Data.{Revision, RevisionStatus, FieldName}
use fresko_universe.Db.{
  Check, pass, throw_if, ◌then_check◌, revision_key, get_revision, throw_if-pass, then_check-pass,
  or_throw-ok, after_query, after_check, Db, ok, Error,
}
use fresko_universe.Prelude.{
  ◌≡◌, refl, sym, ◌∙◌, subst, Bool, true, false, ◌&&◌, ◌||◌, not, Option, some, arith, ◌==◌,
  if◌then◌else◌, Ref, ◌=?◌, ==-eq, not-false, =?-eq, find, put, find-key,
}
use fresko_universe.Revisions.{
  is_pending, status_code, field_code, same_parent, identity_changed, may_link, history_changed,
  validate_revision, save_revision,
}

-- A save that succeeds is of a stored Revision, has passed the checks, and writes the row.
pub save_revision-ok :
    (allow : Bool) (r : Revision) (db db' : Db)
    → save_revision allow r db ≡ ok (tt, db')
    → (old : Revision) × (find revision_key r.name db.revisions ≡ some old)
      × (validate_revision allow (some old) r ≡ pass)
      × (record db { revisions = put revision_key r db.revisions } ≡ db')
unfolding save_revision
save_revision-ok allow r db db' h = after_query (get_revision r.name) _ db db' tt h λ old e0 h0.
    after_check (λ _. validate_revision allow (some old) r) _ db db' tt h0
      λ e1 h1.
        (old, or_throw-ok (find revision_key r.name db.revisions) Error.not_found old e0, e1, (cc))

status_code-eq : (s t : RevisionStatus) → status_code s ≡ status_code t → s ≡ t
status_code-eq s t h = ground arith

field_code-eq : (s t : FieldName) → field_code s ≡ field_code t → s ≡ t
field_code-eq s t h = ground arith

same_parent-eq : (a b : Bool) → same_parent a b ≡ true → a ≡ b
same_parent-eq a b h = ground arith

or-false : (a b : Bool) → (a || b) ≡ false → (a ≡ false) × (b ≡ false)
or-false a b h = ground arith

unchanged : (a b : Ref) → not (a =? b) ≡ false → a ≡ b
unchanged a b h = =?-eq a b (not-false (a =? b) h)

identity-kept :
    (old r : Revision)
    → identity_changed old r ≡ false
    → (r.fieldname ≡ old.fieldname) × (r.on_deal ≡ old.on_deal) × (r.parent_name ≡ old.parent_name)
unfolding identity_changed
identity-kept old r h =
    let (h, c) = or-false _ (not (r.parent_name == old.parent_name)) h in
    let (a, b) = or-false (not (field_code r.fieldname == field_code old.fieldname)) _ h in
    (
      field_code-eq r.fieldname old.fieldname (==-eq _ _ (not-false _ a)),
      same_parent-eq r.on_deal old.on_deal (not-false _ b),
      ==-eq r.parent_name old.parent_name (not-false _ c),
    )

link_kept :
    (allow : Bool) (old r : Revision)
    → old.status ≡ RevisionStatus.applied
    → may_link allow old r ≡ false
unfolding may_link
link_kept allow old r e = rw e refl

same_revision :
    (old r : Revision)
    → r.name ≡ old.name
    → r.on_deal ≡ old.on_deal
    → r.parent_name ≡ old.parent_name
    → r.fieldname ≡ old.fieldname
    → r.old_value ≡ old.old_value
    → r.new_value ≡ old.new_value
    → r.reason ≡ old.reason
    → r.supporting_evidence ≡ old.supporting_evidence
    → r.status ≡ old.status
    → r.approval_reference ≡ old.approval_reference
    → r.changed_by ≡ old.changed_by
    → r ≡ old
same_revision old r p1 p2 p3 p4 p5 p6 p7 p8 p9 p10 p11 = λ i. record {
  name = p1 i;
  on_deal = p2 i;
  parent_name = p3 i;
  fieldname = p4 i;
  old_value = p5 i;
  new_value = p6 i;
  reason = p7 i;
  supporting_evidence = p8 i;
  status = p9 i;
  approval_reference = p10 i;
  changed_by = p11 i;
}

frozen :
    (allow : Bool) (old r : Revision)
    → r.name ≡ old.name
    → old.status ≡ RevisionStatus.applied
    → (not (status_code r.status == status_code old.status) && is_applied old.status) ≡ false
    → history_changed allow old r ≡ false
    → r ≡ old
unfolding history_changed
frozen allow old r name applied status history =
    let (h, e7) = or-false _ (not (r.changed_by == old.changed_by)) history in
    let (h, e6) =
      or-false _
        (not (r.approval_reference =? old.approval_reference) && not (may_link allow old r)) h in
    let (h, e5) = or-false _ (not (r.supporting_evidence =? old.supporting_evidence)) h in
    let (h, e4) = or-false _ (identity_changed old r) h in
    let (h, e3) = or-false _ (not (r.reason =? old.reason)) h in
    let (e1, e2) =
      or-false (not (r.old_value =? old.old_value)) (not (r.new_value =? old.new_value)) h in
    let (field, deal, parent) = identity-kept old r e4 in
    same_revision old r name deal parent field (unchanged _ _ e1) (unchanged _ _ e2)
      (unchanged _ _ e3) (unchanged _ _ e5)
      (status_code-eq r.status old.status
        (==-eq _ _ (not-false _ (stays _ (is_applied old.status) status (rw applied refl)))))
      (unchanged _ _ (stays_unlinked _ (may_link allow old r) e6 (link_kept allow old r applied)))
      (==-eq r.changed_by old.changed_by (not-false _ e7))
  where
    stays : (a b : Bool) → (a && b) ≡ false → b ≡ true → a ≡ false
    stays a b h e = ground arith

    stays_unlinked : (a b : Bool) → (a && not b) ≡ false → b ≡ false → a ≡ false
    stays_unlinked a b h e = ground arith

-- A Revision that is stored as Applied can be saved only as it is: every field of it is kept,
-- whoever saves it and with whatever flag.
pub save_revision-frozen :
    (allow : Bool) (old r : Revision) (db db' : Db)
    → find revision_key r.name db.revisions ≡ some old
    → old.status ≡ RevisionStatus.applied
    → save_revision allow r db ≡ ok (tt, db')
    → r ≡ old
unfolding validate_revision
save_revision-frozen allow old r db db' f applied h =
    let (stored, found, p, left) = save_revision-ok allow r db db' h in
    let same : ◌≡◌ {A = Option Revision} (some stored) (some old) = sym found ∙ f in
    let passed : validate_revision allow (some old) r ≡ pass =
      (let is : stored ≡ old = cc in subst (λ x. validate_revision allow (some x) r ≡ pass) is p) in
    let (h2, only) =
      then_check-pass _
        (throw_if (is_pending old.status && is_applied r.status && not allow)
          Error.applied_only_by_apply)
        (of_applied passed) in
    let (status, history) =
      then_check-pass _ (throw_if (history_changed allow old r) Error.revision_frozen) h2 in
    frozen allow old r (sym (find-key revision_key r.name db.revisions old f)) applied
      (throw_if-pass _ Error.revision_frozen status) (throw_if-pass _ Error.revision_frozen history)
  where
    if_applied : (a b : Bool) (c d : Check) → a ≡ true → (if a || b then c else d) ≡ pass → c ≡ pass
    if_applied a b c d e h = rw e at h

    of_applied :
        validate_revision allow (some old) r ≡ pass
        → (throw_if
              (not (status_code r.status == status_code old.status) && is_applied old.status)
              Error.revision_frozen
            then_check throw_if (history_changed allow old r) Error.revision_frozen
            then_check throw_if
                (is_pending old.status && is_applied r.status && not allow)
                Error.applied_only_by_apply)
          ≡ pass
    of_applied p = if_applied (is_applied old.status) (is_applied r.status) _ _ (rw applied refl) p
