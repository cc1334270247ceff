-- ===== src/Outwards/Posted.antt =====
-- post_outward: who may post what, and what is physically left afterwards.
use fresko_universe.Access.{assert_can_post_outward}
use fresko_universe.Data.{Outward, Session, is_outward, is_movement, OutwardStatus, MovementType}
use fresko_universe.Db.{
  pass, throw_if, ◌>>=◌, ◌>>◌, pure, reads, check, outward_key, throw_if-pass, check-ok, query-ok,
  after_bind, after_check, Db, ok, Error,
}
use fresko_universe.Db.Frame.{ended, SameStock}
use fresko_universe.Outwards.{
  validate_stored_outward, save_outward, capacity_checks, mirror_checks, reversed_of,
  reversal_checks, stock_checks, posting_checks, after_post, posting, post_checked, post_locked,
  post_outward, load_outward_for_update,
}
use fresko_universe.Outwards.AfterPost.{after_post-Relates, SameStock-Closed}
use fresko_universe.Outwards.Saved.{
  load_outward_for_update-ok, save_outward-ok, validate_stored_outward-Moved,
}
use fresko_universe.Outwards.Stock.{
  with_row, written_weight, posted-WithinStock, posted-Reverses, WithinStock-SameStock,
  Reverses-SameStock, WithinStock, Reverses,
}
use fresko_universe.Physical.{PostedLine, posted_lines}
use fresko_universe.Physical.Weighed.{weigh, weigh_lines}
use fresko_universe.Prelude.{
  ℕ, ◌≡◌, refl, sym, ap, ◌∙◌, subst, ◌≢◌, ◌⊎◌, inl, inr, true, ◌||◌, not, Option, none, some, arith,
  ◌==◌, if◌then◌else◌, ==-refl, not-false, Bool-cases, find, put, find-put, find-key,
}
use fresko_universe.Prelude.Int.{◌+ℤ◌, ℤ}

-- The Outward waited for review, and was posted by an approver or a System Manager who neither
-- made nor submitted it, with its payload as it was.
pub record NewlyPosted (s : Session) (n : ℕ) (old o : Outward) (db db' : Db) : Type 0 where
  pub waited : old.status ≡ OutwardStatus.review_pending
  pub may : (s.system_manager || s.approver) ≡ true
  pub not_maker : s.user ≢ old.prepared_by
  pub stored : find outward_key n db'.outwards ≡ some o
  pub posted : o.status ≡ OutwardStatus.posted
  pub facts : o.facts ≡ old.facts
  pub name : o.name ≡ old.name
  pub event : o.source_event_key ≡ old.source_event_key
  pub left : SameStock (with_row db o) db'
  pub stock :
      ((old.movement_type ≡ MovementType.outward) × WithinStock old db') ⊎ Reverses old db db'

-- The two cases of the checks before the post.
posting_checks-ok :
    (o : Outward) (x : Option Outward) (db db' : Db)
    → posting_checks o db ≡ ok (x, db')
    → (db ≡ db')
      × (((o.movement_type ≡ MovementType.outward) × (capacity_checks o db ≡ pass))
          ⊎ ((original : Outward) × (o.movement_type ≡ MovementType.reversal)
              × (reversed_of o db ≡ ok original)
              × (mirror_checks original o db ≡ pass)))
unfolding posting_checks reversal_checks stock_checks
posting_checks-ok o x db db' h =
    elim (Bool-cases (is_movement o.movement_type MovementType.reversal)) [
      | inl e ↦
          let (original, named, k) =
            query-ok (reversed_of o)
              (λ original. reads (mirror_checks original o) >> pure (some original)) db db' x
              (rw (e, posting_checks) at h) in
          let (checks, end) = check-ok (mirror_checks original o) _ db db' x k in
          ((cc), inr (original, ground arith, named, checks))
      | inr e ↦
          let (checks, end) =
            check-ok (capacity_checks o) (λ _. pure none) db db' x (rw (e, posting_checks) at h) in
          ((cc), inl (ground arith, checks))
    ]

-- The row as post_outward saves it.
abbrev to_post : Session → Outward → Outward
to_post s o = record o { status = OutwardStatus.posted; posted_by = some s.user }

-- What the post writes, and the checks that it passed.
record Written (s : Session) (old o : Outward) (db db' : Db) : Type 0 where
  moved :
      validate_stored_outward s posting (find outward_key old.name db.outwards) (to_post s old)
      ≡ ok o
  left : SameStock (with_row db o) db'
  checks :
      ((old.movement_type ≡ MovementType.outward) × (capacity_checks old db ≡ pass))
      ⊎ ((original : Outward) × (old.movement_type ≡ MovementType.reversal)
          × (reversed_of old db ≡ ok original)
          × (mirror_checks original old db ≡ pass))

post_checked-Written :
    (s : Session) (old o : Outward) (db db' : Db)
    → post_checked s old db ≡ ok (o, db')
    → Written s old o db db'
unfolding post_checked
post_checked-Written s old o db db' h =
    after_bind (posting_checks old)
      (λ x. save_outward s posting (to_post s old) >>= λ saved. after_post saved x >> pure saved) db
      db' o h
      λ x m0 e0 h0.
        let (same0, checks) = posting_checks-ok old x db m0 e0 in
        after_bind (save_outward s posting (to_post s old))
          (λ saved. after_post saved x >> pure saved) m0 db' o h0
          λ saved m1 e1 h1.
            let (moved, left1) = save_outward-ok s posting (to_post s old) saved m0 m1 e1 in
            after_bind (after_post saved x) (λ _. pure saved) m1 db' o h1
              λ u m2 e2 h2.
                let is : saved ≡ o = cc in
                let end : m2 ≡ db' = cc in
                let same2 =
                  ended (after_post saved x) m1 m2 u (after_post-Relates SameStock-Closed saved x)
                    e2 in
                record {
                  moved =
                      subst
                        (λ (y : Db).
                          validate_stored_outward s posting (find outward_key old.name y.outwards)
                            (to_post s old)
                          ≡ ok saved)
                        (sym same0) moved
                      ∙ ap ok is;
                  left = subst (SameStock (with_row db o)) end (
                      subst (λ y. SameStock y m2) (sym left1 ∙ (λ i. with_row (sym same0 i) (is i)))
                        same2);
                  checks = checks;
                }

newly_posted :
    (s : Session) (old o : Outward) (db db' : Db)
    → (s.system_manager || s.approver) ≡ true
    → find outward_key old.name db.outwards ≡ some old
    → old.status ≡ OutwardStatus.review_pending
    → Written s old o db db'
    → NewlyPosted s old.name old o db db'
newly_posted s old o db db' may found waited w =
    let m = validate_stored_outward-Moved s posting old (to_post s old) o (rw found at w.moved) in
    let written : (v : PostedLine → ℤ)
        → weigh v (posted_lines old.container (with_row db o).outwards)
          ≡ weigh v (posted_lines old.container db.outwards)
            +ℤ weigh_lines v old.movement_type old.lines =
      λ v. written_weight v old o db found waited m.name m.facts m.status in
    record {
      waited = waited;
      may = may;
      not_maker = elim m.move [ inl (d, _, _, _) ↦ absurd (cc) | inr (_, _, other, _, _) ↦ other ];
      stored = rw (w.left.outwards) (
          subst (λ n. find outward_key n (put outward_key o db.outwards) ≡ some o) m.name
            (rw find-put (rw ==-refl refl)));
      posted = m.status;
      facts = m.facts;
      name = m.name;
      event = m.event;
      left = w.left;
      stock = elim w.checks [
        | inl (outward, c) ↦ inl (
          outward,
          WithinStock-SameStock old (with_row db o) db' w.left
              (posted-WithinStock old o db written c outward),
        )
        | inr (original, reversal, named, c) ↦ inr (
            Reverses-SameStock old db (with_row db o) db' w.left
              (posted-Reverses old o db written original reversal named c))
      ];
    }

is_outward-eq : (a b : OutwardStatus) → is_outward a b ≡ true → a ≡ b
is_outward-eq a b h = ground arith

-- The post of an Outward that was not posted yet.
post_locked-NewlyPosted :
    (s : Session) (old o : Outward) (db db' : Db)
    → (s.system_manager || s.approver) ≡ true
    → find outward_key old.name db.outwards ≡ some old
    → post_locked s old db ≡ ok (o, db')
    → NewlyPosted s old.name old o db db'
unfolding post_locked
post_locked-NewlyPosted s old o db db' may found h =
    after_check
      (λ _. throw_if (not (is_outward old.status OutwardStatus.review_pending)) Error.wrong_status)
      (λ _.
        check (throw_if (old.prepared_by == s.user) Error.maker_is_checker) >> post_checked s old)
      db db' o h
      λ waits h1.
        after_check (λ _. throw_if (old.prepared_by == s.user) Error.maker_is_checker)
          (λ _. post_checked s old) db db' o h1
          λ maker h2.
            newly_posted s old o db db' may found
              (is_outward-eq old.status OutwardStatus.review_pending
                (not-false _ (throw_if-pass _ Error.wrong_status waits)))
              (post_checked-Written s old o db db' h2)

-- What post_outward answers: the Outward as it was, if it is posted already, or as it is now.
pub record PostOutcome (s : Session) (n : ℕ) (o : Outward) (db db' : Db) : Type 0 where
  pub old : Outward
  pub found : find outward_key n db.outwards ≡ some old
  pub outcome :
      ((old.status ≡ OutwardStatus.posted) × (o ≡ old) × (db' ≡ db)) ⊎ NewlyPosted s n old o db db'

-- Where post_outward succeeds, the Outward was posted before and nothing is written, or it waited
-- for review and is posted now, by an approver or a System Manager other than its maker, with its
-- payload as it was; no other Outward and no Deal, Container or assertion changes. After the post of an OUTWARD all that is posted of the Container, and of
-- each lot that the Outward names, is within the inward quantities, up to 1e-9. A REVERSAL names
-- a posted OUTWARD that no other reverses, and takes off each lot what that one took.
pub post_outward-PostOutcome :
    (s : Session) (before : Db) (n : ℕ) (o : Outward) (db db' : Db)
    → post_outward s before n db ≡ ok (o, db')
    → PostOutcome s n o db db'
unfolding post_outward assert_can_post_outward
post_outward-PostOutcome s before n o db db' h =
    after_check (λ _. assert_can_post_outward s)
      (λ _. load_outward_for_update before n >>= λ o.
        if is_outward o.status OutwardStatus.posted then pure o else post_locked s o)
      db db' o h
      λ gate h1.
        after_bind (load_outward_for_update before n)
          (λ o. if is_outward o.status OutwardStatus.posted then pure o else post_locked s o) db db'
          o h1
          λ old m0 e0 h2.
            let (same, found) = load_outward_for_update-ok before db m0 n old e0 in
            let may =
              not-false (s.system_manager || s.approver)
                (throw_if-pass _ Error.permission_denied gate) in
            elim (Bool-cases (is_outward old.status OutwardStatus.posted)) [
              | inl e ↦
                  let k = (rw e at h2) in
                  record {
                    old = old;
                    found = found;
                    outcome = inl (is_outward-eq old.status OutwardStatus.posted e, (cc), (cc));
                  }
              | inr e ↦
                  let k : post_locked s old db ≡ ok (o, db') =
                    subst (λ y. post_locked s old y ≡ ok (o, db')) (sym same) (rw e at h2) in
                  let here = find-key outward_key n db.outwards old found in
                  record {
                    old = old;
                    found = found;
                    outcome = inr (
                        subst (λ m. NewlyPosted s m old o db db') here
                          (post_locked-NewlyPosted s old o db db' may
                            (subst (λ m. find outward_key m db.outwards ≡ some old) (sym here)
                              found)
                            k));
                  }
            ]
