-- ===== src/Revisions/Fresh.antt =====
-- A requested Revision is new, and a Revision that gets an Approval is not applied.
use fresko_universe.Access.{assert_can_work_on_deal, assert_can_apply_revision}
use fresko_universe.Approvals.{
  approval_before_insert, validate_approval, approval_row, insert_approval, rate_or,
}
use fresko_universe.Approvals.Steps.{insert_approval-Relates}
use fresko_universe.Data.{Deal, Approval, Revision, Session, Decision, RevisionStatus, FieldName}
use fresko_universe.Db.{
  throw_if, ◌>>=◌, ◌>>◌, pure, revision_key, get_deal, get_revision, write_approval, write_revision,
  fresh, throw_if-pass, or_throw-ok, after_bind, after_query, after_check, Db, ok, Error,
}
use fresko_universe.Db.Frame.{ended}
use fresko_universe.Policy.{revision_eligible}
use fresko_universe.Prelude.{
  ℕ, ◌+◌, ◌≤◌, ◌≡◌, refl, sym, subst, inl, inr, Bool, true, false, not, Option, none, some, arith,
  ◌==◌, Ref, is_set, ==-eq, not-false, Bool-cases, find, put, find-put, find-key,
}
use fresko_universe.Prelude.Int.{ℤ}
use fresko_universe.Revisions.{
  is_pending, revision_before_insert, assert_evidence, revision_row, request_revision, is_approve,
  create_revision_approval, Texts,
}
use fresko_universe.Revisions.Kept.{
  KeepsApplied-trans, put-KeepsApplied, KeepsApplied-Closed, KeepsApplied,
}

not_after : (n m : ℕ) → n + 1 ≤ m → (n == m) ≡ false
not_after n m h = ground arith

before_next : (n m : ℕ) → n + 1 ≤ m → n ≤ m
before_next n m h = omega (arith, h)

-- The row of a new name joins the others.
add-KeepsApplied :
    (db : Db) (r : Revision)
    → r.name ≡ db.next_name
    → KeepsApplied db
        (record db { revisions = put revision_key r db.revisions; next_name = db.next_name + 1 })
add-KeepsApplied db r named = record {
  below = λ b n le.
      rw (find-put, named, not_after db.next_name n le) (b n (before_next db.next_name n le));
  kept = λ b n x f a.
      rw (find-put, named)
        (elim (Bool-cases (db.next_name == n)) [
          | inr e ↦ rw e f
          | inl e ↦ let absent = b n (omega (arith, ==-eq db.next_name n e)) in absurd (cc)
        ]);
}

pub request_revision-KeepsApplied :
    (t : Texts) (s : Session) (n : ℕ) (field : FieldName) (new_value reason evidence : Ref)
    (r : Revision) (db db' : Db)
    → request_revision t s n field new_value reason evidence db ≡ ok (r, db')
    → KeepsApplied db db'
unfolding request_revision revision_row
request_revision-KeepsApplied t s n field new_value reason evidence r db db' h =
    after_check (λ _. throw_if (not (is_set reason)) Error.reason_required) _ db db' r h
      λ e0 h0. after_query (get_deal n) _ db db' r h0 λ d e1 h1.
        after_check (λ _. assert_can_work_on_deal s d) _ db db' r h1
          λ e2 h2.
            after_check (λ _. throw_if (not (revision_eligible field)) Error.field_not_eligible) _
              db db' r h2
              λ e3 h3.
                after_check (λ _. assert_evidence field evidence d) _ db db' r h3
                  λ e4 h4.
                    let row = revision_row t s d field new_value reason evidence db.next_name in
                    after_check (λ _. revision_before_insert row)
                      (λ _. do write_revision row; pure row)
                      (record db { next_name = db.next_name + 1 }) db' r h4
                      λ e5 h5.
                        let left : record db {
                          revisions = put revision_key row db.revisions;
                          next_name = db.next_name + 1;
                        }
                            ≡ db' =
                          cc in
                        subst (KeepsApplied db) left (add-KeepsApplied db row refl)

-- The Revisions are left alone by the insert of an Approval.
record SameRevisions (db db' : Db) : Type 0 where
  revisions : db'.revisions ≡ db.revisions

insert_approval-SameRevisions :
    (s : Session) (d : Deal) (decision : Decision) (rate : Option ℤ) (reason : Ref)
    (oversell : Bool) (exception revision : Ref) (a : Approval) (db db' : Db)
    → insert_approval s d decision rate reason oversell exception revision db ≡ ok (a, db')
    → SameRevisions db db'
unfolding insert_approval
insert_approval-SameRevisions s d decision rate reason oversell exception revision a db db' h =
    after_check (λ _. approval_before_insert s decision oversell) _ db db' a h
      λ e0 h0.
        after_check (validate_approval d.name revision)
          (λ _. do
            n ← fresh
            write_approval (approval_row s d decision rate reason oversell exception revision n)
            pure (approval_row s d decision rate reason oversell exception revision n))
          db db' a h0 λ e1 h1. record { revisions = (cc) }

pending_not_applied : (s : RevisionStatus) → is_pending s ≡ true → s ≡ RevisionStatus.applied → ⊥
pending_not_applied s h e = ground arith

pub create_revision_approval-KeepsApplied :
    (s : Session) (n : ℕ) (decision : Decision) (rate : Option ℤ) (reason : Ref) (a : Approval)
    (db db' : Db)
    → create_revision_approval s n decision rate reason db ≡ ok (a, db')
    → KeepsApplied db db'
unfolding create_revision_approval
create_revision_approval-KeepsApplied s n decision rate reason a db db' h =
    after_check (λ _. assert_can_apply_revision s) _ db db' a h
      λ e0 h0.
        after_check (λ _. throw_if (not (is_approve decision)) Error.invalid_decision) _ db db' a h0
          λ e1 h1.
            after_check (λ _. throw_if (not (is_set reason)) Error.reason_required) _ db db' a h1
              λ e2 h2. after_query (get_revision n) _ db db' a h2 λ rev e3 h3.
                after_check (λ _. throw_if (not (is_pending rev.status)) Error.revision_not_pending)
                  _ db db' a h3
                  λ e4 h4.
                    after_check (λ _. throw_if (not rev.on_deal) Error.wrong_parent) _ db db' a h4
                      λ e5 h5. after_query (get_deal rev.parent_name) _ db db' a h5 λ d e6 h6.
                        after_bind
                          (insert_approval s d Decision.approve
                            (some (rate_or rate (rate_or d.approved_rate d.proposed_rate))) reason
                            false none (some rev.name))
                          (λ x. do
                            write_revision (record rev { approval_reference = some x.name })
                            pure x)
                          db db' a h6
                          λ x mid e7 h7.
                            let found =
                              or_throw-ok (find revision_key n db.revisions) Error.not_found rev
                                e3 in
                            linked_end db mid db' rev x a
                              (subst (λ k. find revision_key k db.revisions ≡ some rev)
                                (sym (find-key revision_key n db.revisions rev found)) found)
                              (not-false _ (throw_if-pass _ Error.revision_not_pending e4))
                              (insert_approval-SameRevisions s d Decision.approve _ reason false
                                none (some rev.name) x db mid e7)
                              (ended _ db mid x
                                (insert_approval-Relates KeepsApplied-Closed s d Decision.approve _
                                  reason false none (some rev.name))
                                e7)
                              h7
  where
    linked_end :
        (db mid db' : Db) (rev : Revision) (x a : Approval)
        → find revision_key rev.name db.revisions ≡ some rev
        → is_pending rev.status ≡ true
        → SameRevisions db mid
        → KeepsApplied db mid
        → (write_revision (record rev { approval_reference = some x.name }) >> pure x) mid
          ≡ ok (a, db')
        → KeepsApplied db db'
    linked_end db mid db' rev x a found pending same keeps h =
        let new : Revision = record rev { approval_reference = some x.name } in
        let left : record mid { revisions = put revision_key new mid.revisions } ≡ db' = cc in
        subst (KeepsApplied db) left (
          KeepsApplied-trans db mid _ keeps (
            put-KeepsApplied mid rev new (rw same.revisions found)
              (λ e. absurd (pending_not_applied rev.status pending e))))
