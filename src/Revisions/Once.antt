-- ===== src/Revisions/Once.antt =====
-- apply_revision: the Approval that a material field needs is used once, and the Revision is
-- applied once.
use fresko_universe.Access.{assert_can_apply_revision}
use fresko_universe.Data.{Deal, Approval, Revision, Session, RevisionStatus}
use fresko_universe.Db.{
  throw_if, ◌>>◌, pure, deal_key, approval_key, revision_key, get_deal, get_revision, throw_if-pass,
  or_throw-ok, after_bind, after_query, after_check, Db, ok, Error,
}
use fresko_universe.DealDoc.{save_deal}
use fresko_universe.Policy.{revision_eligible, is_material_field}
use fresko_universe.Prelude.{
  ℕ, ◌≡◌, refl, sym, ap, ◌∙◌, subst, true, not, Option, none, some, List, arith, Ref, or_else,
  ==-refl, not-false, find, put, find-put, find-key,
}
use fresko_universe.Revisions.{
  is_pending, save_revision, approval_for, revision_flags, consume, applied_row, reference_kept,
  settle_buyer, apply_revision, set_field, Texts,
}
use fresko_universe.Revisions.History.{save_revision-ok}
use fresko_universe.Revisions.Records.{
  settle_buyer-SameRecords, save_deal-SameRecords, approval_for-Granted, Bound,
}

-- What an applied Revision means: it was Pending, of a Deal and of an eligible field, and is now
-- Applied; for a material field, the Approval that it now refers to was stored, bound to the Deal
-- and to the Revision, an APPROVE and unused, the Deal's field held the Revision's old value, and
-- the Approval is now stored as consumed.
pub record Applied (t : Texts) (n : ℕ) (r : Revision) (db db' : Db) : Type 0 where
  pub old : Revision
  pub found : find revision_key n db.revisions ≡ some old
  pub was_pending : old.status ≡ RevisionStatus.pending
  pub of_deal : old.on_deal ≡ true
  pub eligible : revision_eligible old.fieldname ≡ true
  pub deal : Deal
  pub found_deal : find deal_key old.parent_name db.deals ≡ some deal
  pub applied : r.status ≡ RevisionStatus.applied
  pub stored : find revision_key n db'.revisions ≡ some r
  pub material :
      is_material_field old.fieldname ≡ true
      → (a : Approval) × (find approval_key a.name db.approvals ≡ some a)
        × Bound t old deal a
        × (r.approval_reference ≡ some a.name)
        × (find approval_key a.name db'.approvals ≡ some (record a { consumed = true }))

find-put_self :
    {A : Type 0} (key : A → ℕ) (r : A) (rows : List A) → find key (key r) (put key r rows) ≡ some r
find-put_self key r rows = rw (find-put key (key r) r rows, ==-refl (key r)) refl

consume-revisions :
    (o : Option Approval) (db db' : Db) → consume o db ≡ ok (tt, db') → db'.revisions ≡ db.revisions
unfolding consume
consume-revisions none db db' h = cc
consume-revisions (some a) db db' h = cc

consume-stored :
    (o : Option Approval) (a : Approval) (db db' : Db)
    → o ≡ some a
    → consume o db ≡ ok (tt, db')
    → find approval_key a.name db'.approvals ≡ some (record a { consumed = true })
unfolding consume
consume-stored none a db db' e h = absurd (cc)
consume-stored (some x) a db db' e h =
    let q : x ≡ a = cc in
    let rows : put approval_key (record x { consumed = true }) db.approvals ≡ db'.approvals = cc in
    subst
      (λ (y : Approval).
        find approval_key y.name db'.approvals ≡ some (record y { consumed = true }))
      q
      (subst (λ l. find approval_key x.name l ≡ some (record x { consumed = true })) rows
        (find-put_self approval_key (record x { consumed = true }) db.approvals))

is_pending-eq : (s : RevisionStatus) → is_pending s ≡ true → s ≡ RevisionStatus.pending
is_pending-eq s h = ground arith

reference_of :
    (r : Revision) (passed : Ref) (o : Option Approval) (a : Approval)
    → o ≡ some a
    → reference_kept r passed o ≡ some a.name
unfolding reference_kept
reference_of r passed none a e = absurd (cc)
reference_of r passed (some x) a e = let q : x ≡ a = cc in rw q refl

apply_end :
    (t : Texts) (n : ℕ) (passed : Ref) (r old : Revision) (deal d' : Deal) (o : Option Approval)
    (db m1 m2 m3 db' : Db)
    → find revision_key n db.revisions ≡ some old
    → old.status ≡ RevisionStatus.pending
    → old.on_deal ≡ true
    → revision_eligible old.fieldname ≡ true
    → find deal_key old.parent_name db.deals ≡ some deal
    → approval_for t old deal (or_else passed old.approval_reference) db ≡ ok o
    → save_deal (revision_flags old.fieldname) (set_field t old.fieldname old.new_value deal) db
      ≡ ok (d', m1)
    → save_revision true (applied_row old (reference_kept old passed o)) m1 ≡ ok (tt, m2)
    → consume o m2 ≡ ok (tt, m3)
    → settle_buyer old m3 ≡ ok (tt, db')
    → applied_row old (reference_kept old passed o) ≡ r
    → Applied t n r db db'
unfolding applied_row
apply_end t n passed r old deal d' o db m1 m2 m3 db' found pending on_deal eligible found_deal e0 e1
      e2 e3 e4 is =
    let new = applied_row old (reference_kept old passed o) in
    let saved = save_deal-SameRecords _ _ d' db m1 e1 in
    let settled = settle_buyer-SameRecords old m3 db' e4 in
    let rows : put revision_key new m1.revisions ≡ m2.revisions =
      ap (λ (x : Db). x.revisions) (save_revision-ok true new m1 m2 e2).3 in
    let kept : db'.revisions ≡ put revision_key new m1.revisions =
      settled.revisions ∙ consume-revisions o m2 m3 e3 ∙ sym rows in
    let name : old.name ≡ n = find-key revision_key n db.revisions old found in
    record {
      old = old;
      found = found;
      was_pending = pending;
      of_deal = on_deal;
      eligible = eligible;
      deal = deal;
      found_deal = found_deal;
      applied = ap (λ (x : Revision). x.status) (sym is);
      stored =
          subst (λ (x : Revision). find revision_key n db'.revisions ≡ some x) is
            (rw kept (
              subst (λ k. find revision_key k (put revision_key new m1.revisions) ≡ some new) name
                (find-put_self revision_key new m1.revisions)));
      material = λ m.
          let g = approval_for-Granted t old deal _ o db m e0 in
          (
            g.approval,
            g.stored,
            g.bound,
            ap (λ (x : Revision). x.approval_reference) (sym is)
                ∙ reference_of old passed o g.approval g.is,
            rw settled.approvals (consume-stored o g.approval m2 m3 g.is e3),
          );
    }

-- Where apply_revision succeeds, the Revision was Pending, of a Deal and of an eligible field,
-- and is stored as Applied. For a material field, the Approval that it then refers to was stored,
-- bound to this Deal and this Revision, an APPROVE and unused, the Deal's field still held the
-- old value, and the Approval is stored as consumed.
pub apply_revision-Applied :
    (t : Texts) (s : Session) (n : ℕ) (passed : Ref) (r : Revision) (db db' : Db)
    → apply_revision t s n passed db ≡ ok (r, db')
    → Applied t n r db db'
unfolding apply_revision
apply_revision-Applied t s n passed r db db' h =
    after_check (λ _. assert_can_apply_revision s) _ db db' r h
      λ e0 h0. after_query (get_revision n) _ db db' r h0 λ old e1 h1.
        after_check (λ _. throw_if (not (is_pending old.status)) Error.revision_not_pending) _ db
          db' r h1
          λ e2 h2.
            after_check (λ _. throw_if (not old.on_deal) Error.wrong_parent) _ db db' r h2
              λ e3 h3. after_query (get_deal old.parent_name) _ db db' r h3 λ deal e4 h4.
                after_check
                  (λ _. throw_if (not (revision_eligible old.fieldname)) Error.field_not_eligible) _
                  db db' r h4
                  λ e5 h5.
                    after_query (approval_for t old deal (or_else passed old.approval_reference)) _
                      db db' r h5
                      λ o e6 h6.
                        after_bind
                          (save_deal (revision_flags old.fieldname)
                            (set_field t old.fieldname old.new_value deal))
                          _ db db' r h6
                          λ d' m1 e7 h7.
                            after_bind
                              (save_revision true (applied_row old (reference_kept old passed o)))
                              (λ _. do
                                consume o
                                settle_buyer old
                                pure (applied_row old (reference_kept old passed o)))
                              m1 db' r h7
                              λ _ m2 e8 h8.
                                after_bind (consume o)
                                  (λ _. do
                                    settle_buyer old
                                    pure (applied_row old (reference_kept old passed o)))
                                  m2 db' r h8
                                  λ _ m3 e9 h9.
                                    after_bind (settle_buyer old)
                                      (λ _. pure (applied_row old (reference_kept old passed o))) m3
                                      db' r h9
                                      λ _ m4 e10 h10.
                                        let is : applied_row old (reference_kept old passed o) ≡ r =
                                          cc in
                                        let same : m4 ≡ db' = cc in
                                        apply_end t n passed r old deal d' o db m1 m2 m3 db'
                                          (or_throw-ok (find revision_key n db.revisions)
                                            Error.not_found old e1)
                                          (is_pending-eq old.status (
                                            not-false _
                                              (throw_if-pass _ Error.revision_not_pending e2)))
                                          (not-false _ (throw_if-pass _ Error.wrong_parent e3))
                                          (not-false _
                                            (throw_if-pass _ Error.field_not_eligible e5))
                                          (or_throw-ok (find deal_key old.parent_name db.deals)
                                            Error.not_found deal e4)
                                          e6 e7 e8 e9
                                          (subst (λ (x : Db). settle_buyer old m3 ≡ ok (tt, x)) same
                                            e10)
                                          is
