-- ===== src/Quantities/Overtaken.antt =====
-- What a decision on an assertion does to the other rows: it supersedes the one that is replaced.
use fresko_universe.Data.{QuantityAssertion, Session, Digests, AssertionStatus, Review}
use fresko_universe.Db.{
  throw_if-pass, reads-ok, check-ok, query-ok, or_throw-ok, after_bind, throw_if, ◌>>=◌, ◌>>◌, pure,
  check, quantity_key, get_assertion, Db, ok, Error,
}
use fresko_universe.Db.Frame.{ended}
use fresko_universe.Outwards.AfterPost.{SameStock-Closed}
use fresko_universe.Prelude.{
  ℕ, ◌≡◌, refl, sym, ap, ◌∙◌, subst, Bool, true, false, ◌||◌, not, none, some, arith, ◌==◌, Ref,
  any, find, put, find-key,
}
use fresko_universe.Quantities.{
  ensure_variance, active_in_scope, has_successor, supersede, activate_over, decide_review,
  is_active_now, assertion_transition, validate_assertion_of, save_assertion,
}
use fresko_universe.Quantities.Activating.{superseded}
use fresko_universe.Quantities.Aside.{ensure_variance-Relates}
use fresko_universe.Quantities.Sole.{stored-StoredChecks, save_assertion-ok}

-- The row that an activation replaces, which was active, is superseded by it, and nothing else is
-- written.
abbrev pub Overtakes : QuantityAssertion → Ref → Db → Db → Type 0
Overtakes a none db db' = db'.assertions ≡ db.assertions
Overtakes a (some m) db db' =
    (prior : QuantityAssertion) × (find quantity_key m db.assertions ≡ some prior)
    × (prior.status ≡ AssertionStatus.active)
    × (db'.assertions ≡ put quantity_key (superseded a prior) db.assertions)

is_active_now-eq :
    (a : QuantityAssertion) → is_active_now a ≡ true → a.status ≡ AssertionStatus.active
is_active_now-eq a h = ground arith

-- The save of the row that is replaced stores it as it was passed.
superseded_saved :
    (s : Session) (now : ℕ) (a prior saved : QuantityAssertion) (db : Db)
    → prior.status ≡ AssertionStatus.active
    → validate_assertion_of s now true (some prior) (superseded a prior) db ≡ ok saved
    → superseded a prior ≡ saved
unfolding validate_assertion_of assertion_transition
superseded_saved s now a prior saved db active h =
    let c = stored-StoredChecks s now true prior (superseded a prior) saved h in
    at prior.status active c.transition
  where
    at :
        (status : AssertionStatus)
        → status ≡ AssertionStatus.active
        → assertion_transition s now status (superseded a prior) ≡ ok saved
        → superseded a prior ≡ saved
    at status e k = (let j = (rw e at k) in cc)

supersede-Overtakes :
    (s : Session) (now : ℕ) (before : Db) (a prior : QuantityAssertion) (m : ℕ) (db db' : Db)
    (u : Unit {0})
    → find quantity_key m db.assertions ≡ some prior
    → supersede s now before a prior db ≡ ok (u, db')
    → Overtakes a (some m) db db'
unfolding supersede
supersede-Overtakes s now before a prior m db db' u found h =
    let (sole, h1) =
      check-ok
        (λ db.
          throw_if
            (not (is_active_now prior)
              || any (λ x. not (x.name == prior.name)) (active_in_scope a db))
            Error.sole_active_required)
        (λ _.
          check (throw_if (has_successor prior.name before) Error.successor_exists)
          >> (save_assertion s now true (superseded a prior) >> pure tt))
        db db' u h in
    let (_, h2) =
      check-ok (λ _. throw_if (has_successor prior.name before) Error.successor_exists)
        (λ _. save_assertion s now true (superseded a prior) >> pure tt) db db' u h1 in
    let active =
      is_active_now-eq prior
        (not_left (is_active_now prior) _ (throw_if-pass _ Error.sole_active_required sole)) in
    after_bind (save_assertion s now true (superseded a prior)) (λ _. pure tt) db db' u h2
      λ saved mid e end.
        let (v, _, w) = save_assertion-ok s now true (superseded a prior) saved db mid e in
        let last : mid ≡ db' = cc in
        let named = find-key quantity_key m db.assertions prior found in
        let row : find quantity_key prior.name db.assertions ≡ some prior =
          subst (λ k. find quantity_key k db.assertions ≡ some prior) (sym named) found in
        let is = superseded_saved s now a prior saved db active (
          subst (λ o. validate_assertion_of s now true o (superseded a prior) db ≡ ok saved) row
            v) in
        (
          prior,
          found,
          active,
          ap (λ (y : Db). y.assertions) (sym (w ∙ last))
              ∙ ap (λ y. put quantity_key y db.assertions) (sym is),
        )
  where
    not_left : (x y : Bool) → (not x || y) ≡ false → x ≡ true
    not_left x y e = ground arith

activate_over-Overtakes :
    (s : Session) (now : ℕ) (before : Db) (a : QuantityAssertion) (r : Ref) (db db' : Db)
    (u : Unit {0})
    → activate_over s now before a r db ≡ ok (u, db')
    → Overtakes a r db db'
unfolding activate_over
activate_over-Overtakes s now before a none db db' u h =
    let (_, same) =
      reads-ok (λ db. throw_if (any (λ _. true) (active_in_scope a db)) Error.active_exists) db db'
        u h in
    ap (λ (y : Db). y.assertions) (sym same)
activate_over-Overtakes s now before a (some n) db db' u h =
    let (prior, e, k) = query-ok (get_assertion n) (supersede s now before a) db db' u h in
    supersede-Overtakes s now before a prior n db db' u
      (or_throw-ok (find quantity_key n db.assertions) Error.not_found prior e) k

-- The assertion that a decision replaces.
abbrev pub replaces : Review → QuantityAssertion → Ref
replaces Review.activate a = a.supersedes
replaces _ a = none

-- The one row that a decision writes beside the assertion's own.
pub record Others (decision : Review) (a : QuantityAssertion) (db db' : Db) : Type 0 where
  pub mid : Db
  pub saved : QuantityAssertion
  pub named : saved.name ≡ a.name
  pub overtakes : Overtakes a (replaces decision a) db mid
  pub left : db'.assertions ≡ put quantity_key saved mid.assertions

pub decide_review-Others :
    (g : Digests) (s : Session) (now : ℕ) (before : Db) (decision : Review)
    (a saved : QuantityAssertion) (db db' : Db)
    → decide_review g s now before decision a db ≡ ok (saved, db')
    → Others decision a db db'
unfolding decide_review
decide_review-Others g s now before Review.reject a saved db db' h =
    let (_, k, w) =
      save_assertion-ok s now true (record a { status = AssertionStatus.rejected }) saved db db'
        h in
    record {
      mid = db;
      saved = saved;
      named = k.name;
      overtakes = refl;
      left = ap (λ (y : Db). y.assertions) (sym w);
    }
decide_review-Others g s now before Review.invalid a saved db db' h = absurd (cc)
decide_review-Others g s now before Review.activate a saved db db' h =
    after_bind (activate_over s now before a a.supersedes)
      (λ _. save_assertion s now true (record a { status = AssertionStatus.active }) >>= λ saved.
        ensure_variance g a.container >> pure saved)
      db db' saved h
      λ u m0 e0 h0.
        after_bind (save_assertion s now true (record a { status = AssertionStatus.active }))
          (λ saved. ensure_variance g a.container >> pure saved) m0 db' saved h0
          λ x m1 e1 h1.
            after_bind (ensure_variance g a.container) (λ _. pure x) m1 db' saved h1
              λ v m2 e2 h2.
                let (_, k, w) =
                  save_assertion-ok s now true (record a { status = AssertionStatus.active }) x m0
                    m1 e1 in
                let end : m2 ≡ db' = cc in
                let aside =
                  (ended (ensure_variance g a.container) m1 m2 v
                    (ensure_variance-Relates SameStock-Closed g a.container) e2).assertions in
                record {
                  mid = m0;
                  saved = x;
                  named = k.name;
                  overtakes = activate_over-Overtakes s now before a a.supersedes db m0 u e0;
                  left =
                      ap (λ (y : Db). y.assertions) (sym end)
                      ∙ aside
                      ∙ ap (λ (y : Db). y.assertions) (sym w);
                }
