-- ===== src/Quantities/Deciding.antt =====
-- decide_review: an activation or a rejection leaves one active assertion of a scope at most.
use fresko_universe.Data.{
  QuantityFacts, QuantityAssertion, Session, Digests, AssertionStatus, Review,
}
use fresko_universe.Db.{◌>>=◌, ◌>>◌, pure, quantity_key, after_bind, Db, ok}
use fresko_universe.Db.Frame.{ended}
use fresko_universe.Outwards.AfterPost.{SameStock-Closed}
use fresko_universe.Prelude.{
  ℕ, ◌≡◌, refl, sym, ap, ◌∙◌, subst, Bool, true, false, some, List, ==-refl, find, put, find-put,
}
use fresko_universe.Quantities.{
  ensure_variance, decide_review, activate_over, is_active_now, save_assertion,
}
use fresko_universe.Quantities.Activating.{activate_over-Cleared, Cleared}
use fresko_universe.Quantities.Aside.{ensure_variance-Relates}
use fresko_universe.Quantities.Sole.{
  SoleActive, put_inactive-SoleActive, put_active-SoleActive, save_assertion-ok, Kept,
}

-- What a decision leaves: the assertion with its new status, and one active at most.
pub record Decided (a saved : QuantityAssertion) (db db' : Db) : Type 0 where
  pub as_passed : Kept a saved
  pub stored : find quantity_key a.name db'.assertions ≡ some saved
  pub sole : SoleActive db.assertions → SoleActive db'.assertions

find_saved :
    (a saved : QuantityAssertion) (rows : List QuantityAssertion)
    → saved.name ≡ a.name
    → find quantity_key a.name (put quantity_key saved rows) ≡ some saved
find_saved a saved rows e =
    subst (λ n. find quantity_key n (put quantity_key saved rows) ≡ some saved) e
      (rw find-put (rw ==-refl refl))

pub save_inactive :
    (s : Session) (now : ℕ) (service : Bool) (a saved : QuantityAssertion) (db db' : Db)
    → is_active_now a ≡ false
    → save_assertion s now service a db ≡ ok (saved, db')
    → Decided a saved db db'
save_inactive s now service a saved db db' off h =
    let (_, k, w) = save_assertion-ok s now service a saved db db' h in
    subst (Decided a saved db) w (record {
      as_passed = k;
      stored = find_saved a saved db.assertions k.name;
      sole = put_inactive-SoleActive saved db.assertions (rw (k.status) off);
    })

save_active :
    (s : Session) (now : ℕ) (a saved : QuantityAssertion) (db mid db' : Db)
    → Cleared a db mid
    → save_assertion s now true (record a { status = AssertionStatus.active }) mid ≡ ok (saved, db')
    → Decided (record a { status = AssertionStatus.active }) saved db db'
save_active s now a saved db mid db' c h =
    let (_, k, w) =
      save_assertion-ok s now true (record a { status = AssertionStatus.active }) saved mid db' h in
    subst (Decided (record a { status = AssertionStatus.active }) saved db) w (record {
      as_passed = k;
      stored =
          find_saved (record a { status = AssertionStatus.active }) saved mid.assertions k.name;
      sole = λ was.
          put_active-SoleActive saved mid.assertions
            (λ n y f p same. c.clear n y f p (
              subst
                (λ (facts : QuantityFacts).
                  (y.container ≡ facts.container) × (y.basis ≡ facts.basis) × (y.uom ≡ facts.uom))
                k.facts same))
            (c.sole was);
    })

-- The status that a decision gives.
abbrev pub decided_status : Review → AssertionStatus → AssertionStatus
decided_status Review.activate s = AssertionStatus.active
decided_status Review.reject s = AssertionStatus.rejected
decided_status Review.invalid s = s

pub decide_review-Decided :
    (g : Digests) (s : Session) (now : ℕ) (before : Db) (decision : Review)
    (a saved : QuantityAssertion) (db db' : Db)
    → decide_review g s now before decision a db ≡ ok (saved, db')
    → Decided (record a { status = decided_status decision a.status }) saved db db'
unfolding decide_review
decide_review-Decided g s now before Review.reject a saved db db' h =
    save_inactive s now true (record a { status = AssertionStatus.rejected }) saved db db' refl h
decide_review-Decided g s now before Review.invalid a saved db db' h = absurd (cc)
decide_review-Decided g s now before Review.activate a saved db db' h =
    after_bind (activate_over s now before a a.supersedes)
      (λ _. save_assertion s now true (record a { status = AssertionStatus.active }) >>= λ saved.
        ensure_variance g a.container >> pure saved)
      db db' saved h
      λ u m0 e0 h0.
        after_bind (save_assertion s now true (record a { status = AssertionStatus.active }))
          (λ saved. ensure_variance g a.container >> pure saved) m0 db' saved h0
          λ x m1 e1 h1.
            after_bind (ensure_variance g a.container) (λ _. pure x) m1 db' saved h1
              λ v m2 e2 h2.
                let is : x ≡ saved = cc in
                let end : m2 ≡ db' = cc in
                let same : db'.assertions ≡ m1.assertions =
                  ap (λ (y : Db). y.assertions) (sym end)
                  ∙ (ended (ensure_variance g a.container) m1 m2 v
                      (ensure_variance-Relates SameStock-Closed g a.container) e2).assertions in
                same_rows (record a { status = AssertionStatus.active }) saved db m1 db' same
                  (subst (λ y. Decided (record a { status = AssertionStatus.active }) y db m1) is
                    (save_active s now a x db m0 m1
                      (activate_over-Cleared s now before a a.supersedes db m0 u e0) e1))
  where
    same_rows :
        (a saved : QuantityAssertion) (db mid db' : Db)
        → db'.assertions ≡ mid.assertions
        → Decided a saved db mid
        → Decided a saved db db'
    same_rows a saved db mid db' same d = record {
      as_passed = d.as_passed;
      stored = rw same (d.stored);
      sole = λ was. rw same (d.sole was);
    }
