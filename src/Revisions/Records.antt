-- ===== src/Revisions/Records.antt =====
-- What the steps of apply_revision do to the tables of Approvals and of Revisions.
use fresko_universe.Access.{
  may_apply, assert_approval_bound_for_revision, assert_approval_not_consumed,
  assert_approval_not_stale,
}
use fresko_universe.Data.{Deal, Approval, Revision, Flags}
use fresko_universe.Db.{
  pass, throw_if, approval_key, Result-cases, throw_if-pass, then_check-pass, Db, ok, Error,
}
use fresko_universe.DealDoc.{save_deal}
use fresko_universe.DealDoc.Passed.{save_deal-ok}
use fresko_universe.Exceptions.{resolve_buyer_exceptions}
use fresko_universe.Policy.{is_material_field}
use fresko_universe.Prelude.{
  ◌≡◌, sym, ap, subst, inl, inr, true, false, ◌&&◌, not, Option, none, some, ◌==◌, Ref, is_set,
  ◌=?◌, ==-eq, not-false, =?-eq, Bool-cases, Option-cases, find, find-key,
}
use fresko_universe.Revisions.{
  assert_evidence, material_checks, approval_for, settle_buyer, assert_old_value_matches,
  is_customer, Texts,
}

-- The two tables that the end of apply_revision writes to.
pub record SameRecords (db db' : Db) : Type 0 where
  pub approvals : db'.approvals ≡ db.approvals
  pub revisions : db'.revisions ≡ db.revisions

pub settle_buyer-SameRecords :
    (r : Revision) (db db' : Db) → settle_buyer r db ≡ ok (tt, db') → SameRecords db db'
unfolding settle_buyer resolve_buyer_exceptions
settle_buyer-SameRecords r db db' h =
    elim (Bool-cases (is_customer r.fieldname && is_set r.new_value)) [
      | inl e ↦ let g = (rw (e, settle_buyer) at h) in record { approvals = (cc); revisions = (cc) }
      | inr e ↦ let g = (rw (e, settle_buyer) at h) in record { approvals = (cc); revisions = (cc) }
    ]

pub save_deal-SameRecords :
    (flags : Flags) (d d' : Deal) (db db' : Db)
    → save_deal flags d db ≡ ok (d', db')
    → SameRecords db db'
save_deal-SameRecords flags d d' db db' h =
    let (v, left) = save_deal-ok flags d d' db db' h in
    record {
      approvals = ap (λ (x : Db). x.approvals) (sym left);
      revisions = ap (λ (x : Db). x.revisions) (sym left);
    }

-- The Approval is bound to the Deal and to the Revision, is an APPROVE, and has not been used.
pub record Bound (t : Texts) (r : Revision) (d : Deal) (a : Approval) : Type 0 where
  pub deal : a.deal ≡ d.name
  pub approve : may_apply a.decision ≡ true
  pub revision : a.revision ≡ some r.name
  pub unused : a.consumed ≡ false
  pub current : assert_old_value_matches t d r ≡ pass

bound-pass :
    (a : Approval) (d : Deal) (r : Revision)
    → assert_approval_bound_for_revision a d r ≡ pass
    → (a.deal ≡ d.name) × (may_apply a.decision ≡ true) × (a.revision ≡ some r.name)
unfolding assert_approval_bound_for_revision
bound-pass a d r h =
    let (h3, other) =
      then_check-pass _ (throw_if (not (a.revision =? some r.name)) Error.approval_other_revision)
        h in
    let (h2, without) =
      then_check-pass _ (throw_if (not (is_set a.revision)) Error.approval_without_revision) h3 in
    let (deal, approve) =
      then_check-pass (throw_if (not (a.deal == d.name)) Error.approval_other_deal) _ h2 in
    (
      ==-eq a.deal d.name (not-false _ (throw_if-pass _ Error.approval_other_deal deal)),
      not-false _ (throw_if-pass _ Error.approval_not_approve approve),
      =?-eq a.revision (some r.name)
          (not-false _ (throw_if-pass _ Error.approval_other_revision other)),
    )

material_checks-Bound :
    (t : Texts) (r : Revision) (d : Deal) (a : Approval) (db : Db)
    → material_checks t r d a db ≡ pass
    → Bound t r d a
unfolding material_checks assert_approval_not_consumed
material_checks-Bound t r d a db h =
    let (h5, ats) = then_check-pass _ _ h in
    let (h4, evidence) =
      then_check-pass _ (assert_evidence r.fieldname r.supporting_evidence d) h5 in
    let (h3, current) = then_check-pass _ (assert_old_value_matches t d r) h4 in
    let (h2, stale) = then_check-pass _ (assert_approval_not_stale a r.name db) h3 in
    let (bound, unused) = then_check-pass (assert_approval_bound_for_revision a d r) _ h2 in
    let (deal, approve, revision) = bound-pass a d r bound in
    record {
      deal = deal;
      approve = approve;
      revision = revision;
      unused = throw_if-pass a.consumed Error.approval_consumed unused;
      current = current;
    }

-- What is found for a material field.
pub record Granted (t : Texts) (r : Revision) (d : Deal) (ref : Ref) (o : Option Approval) (db : Db)
    : Type 0 where
  pub approval : Approval
  pub is : o ≡ some approval
  pub stored : find approval_key approval.name db.approvals ≡ some approval
  pub bound : Bound t r d approval

pub approval_for-Granted :
    (t : Texts) (r : Revision) (d : Deal) (ref : Ref) (o : Option Approval) (db : Db)
    → is_material_field r.fieldname ≡ true
    → approval_for t r d ref db ≡ ok o
    → Granted t r d ref o db
unfolding approval_for
approval_for-Granted t r d none o db m h = (let g = (rw (m, approval_for) at h) in absurd (cc))
approval_for-Granted t r d (some ref) o db m h =
    elim (Option-cases (find approval_key ref db.approvals)) [
      | inl e ↦ (let g = (rw (m, e, approval_for) at h) in absurd (cc))
      | inr (a, e) ↦ elim (Result-cases (material_checks t r d a db)) [
        | inr (x, f) ↦ (let g = (rw (m, e, f, approval_for) at h) in absurd (cc))
        | inl (u, f) ↦
            let g = (rw (m, e, f, approval_for) at h) in
            record {
              approval = a;
              is = (cc);
              stored =
                  subst (λ k. find approval_key k db.approvals ≡ some a)
                    (sym (find-key approval_key ref db.approvals a e)) e;
              bound = material_checks-Bound t r d a db f;
            }
      ]
    ]
