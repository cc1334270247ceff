-- ===== src/FieldAssertions/Activating.antt =====
-- review_field_assertion: the rate that is replaced is superseded before the new one is active.
use fresko_universe.Data.{Outward, FieldAssertion, Session, AssertionStatus, Review}
use fresko_universe.Db.{
  pass, throw_if, ◌>>=◌, ◌>>◌, pure, field_assertion_key, get_field_assertion, throw_if-pass,
  then_check-pass, reads-ok, after_bind, after_query, after_check, Db, ok, Error,
}
use fresko_universe.Db.Frame.{ended}
use fresko_universe.Db.Relates.{by_runs, Relates}
use fresko_universe.FieldAssertions.{
  active_rates, has_rate_successor, prior_checks, supersede_rate, activate_rate_over, activate_rate,
  resolve_unpriced_when_complete, decide_rate, review_locked_rate, review_field_assertion,
  same_target, is_active_rate, save_field_assertion, rate_uom_matches, load_rate_under_lock,
}
use fresko_universe.FieldAssertions.Sole.{
  SameTarget, NoRate, same_target-SameTarget, save_field_assertion-ok, save_off-KeepsRates,
  save_on-KeepsRates, KeepsRates,
}
use fresko_universe.Outwards.AfterPost.{
  then_rule, answer_rule, resolve_each-Relates, ExceptionClosed, exception_rules,
}
use fresko_universe.Prelude.{
  ℕ, ◌≡◌, refl, ◌∙◌, subst, true, false, not, none, some, ◌==◌, Ref, none_passes, put_off-NoneOn,
  any, put,
}

pub KeepsRates-Closed : ExceptionClosed KeepsRates
KeepsRates-Closed = record {
  same = λ x. record { sole = λ u. u };
  joined = λ x y z h k. record { sole = λ u. k.sole (h.sole u) };
  exception_written = λ x. record { at = λ db. record { sole = λ u. u } };
  name_given = record { at = λ db. record { sole = λ u. u } };
}

-- What an activation finds once _activate_assertion has passed.
pub record RateCleared (a : FieldAssertion) (db db' : Db) : Type 0 where
  pub kept : KeepsRates db db'
  pub clear : NoRate a db'.field_assertions

nothing_active :
    (a : FieldAssertion) (db : Db)
    → any (λ _. true) (active_rates a db) ≡ false
    → NoRate a db.field_assertions
unfolding active_rates
nothing_active a db h n y f p same =
    let k =
      none_passes field_assertion_key is_active_rate SameTarget same_target same_target-SameTarget a
        (λ _. true) db.field_assertions n y h f p same in
    absurd (cc)

superseded-NoRate :
    (a prior saved : FieldAssertion) (db : Db)
    → any (λ x. not (x.name == prior.name)) (active_rates a db) ≡ false
    → saved.name ≡ prior.name
    → is_active_rate saved ≡ false
    → NoRate a (put field_assertion_key saved db.field_assertions)
unfolding active_rates
superseded-NoRate a prior saved db others named off =
    put_off-NoneOn field_assertion_key is_active_rate SameTarget same_target same_target-SameTarget
      a prior saved db.field_assertions others named off

prior_checks-alone :
    (a prior : FieldAssertion) (db : Db)
    → prior_checks a prior db ≡ pass
    → any (λ x. not (x.name == prior.name)) (active_rates a db) ≡ false
unfolding prior_checks
prior_checks-alone a prior db h =
    let (h1, _) =
      then_check-pass _ (throw_if (has_rate_successor prior.name db) Error.successor_exists) h in
    let (_, alone) =
      then_check-pass _
        (throw_if (any (λ x. not (x.name == prior.name)) (active_rates a db))
          Error.sole_active_required)
        h1 in
    throw_if-pass _ Error.sole_active_required alone

-- The row as _activate_assertion saves it.
abbrev replaced : FieldAssertion → FieldAssertion → FieldAssertion
replaced a prior = record prior { status = AssertionStatus.superseded; superseded_by = some a.name }

supersede_rate-RateCleared :
    (s : Session) (a prior : FieldAssertion) (db db' : Db) (u : Unit {0})
    → supersede_rate s a prior db ≡ ok (u, db')
    → RateCleared a db db'
unfolding supersede_rate
supersede_rate-RateCleared s a prior db db' u h =
    after_check (prior_checks a prior)
      (λ _. save_field_assertion s true (replaced a prior) >> pure tt) db db' u h
      λ checks h1.
        after_bind (save_field_assertion s true (replaced a prior)) (λ _. pure tt) db db' u h1
          λ saved mid e end.
            let last : mid ≡ db' = cc in
            let (k, left) = save_field_assertion-ok s true (replaced a prior) saved db mid e in
            let off : is_active_rate saved ≡ false = rw (k.status) refl in
            record {
              kept = subst (KeepsRates db) last (
                  ended (save_field_assertion s true (replaced a prior)) db mid saved
                    (save_off-KeepsRates s true (replaced a prior) refl) e);
              clear =
                  subst (λ (y : Db). NoRate a y.field_assertions) (left ∙ last)
                    (superseded-NoRate a prior saved db (prior_checks-alone a prior db checks)
                      k.name off);
            }

activate_rate_over-RateCleared :
    (s : Session) (a : FieldAssertion) (r : Ref) (db db' : Db) (u : Unit {0})
    → activate_rate_over s a r db ≡ ok (u, db')
    → RateCleared a db db'
unfolding activate_rate_over
activate_rate_over-RateCleared s a none db db' u h =
    let (e, same) =
      reads-ok (λ db. throw_if (any (λ _. true) (active_rates a db)) Error.active_exists) db db' u
        h in
    subst (RateCleared a db) same (record {
      kept = record { sole = λ k. k };
      clear = nothing_active a db (throw_if-pass _ Error.active_exists e);
    })
activate_rate_over-RateCleared s a (some n) db db' u h =
    after_query (get_field_assertion n) (supersede_rate s a) db db' u h
      λ prior e k. supersede_rate-RateCleared s a prior db db' u k

activate_rate-RateCleared :
    (s : Session) (a : FieldAssertion) (o : Outward) (db db' : Db) (u : Unit {0})
    → activate_rate s a o db ≡ ok (u, db')
    → RateCleared a db db'
unfolding activate_rate
activate_rate-RateCleared s a o db db' u h =
    after_check (λ _. rate_uom_matches o.lines a.outward_line_key a.rate a.rate_uom)
      (λ _. activate_rate_over s a a.supersedes) db db' u h
      λ _ k. activate_rate_over-RateCleared s a a.supersedes db db' u k

-- An activation as a whole.
abbrev activated : Session → FieldAssertion → FieldAssertion
activated s a = record a {
  reviewed_by = some s.user;
  status = AssertionStatus.active;
  activated_by = some s.user;
}

module _ {R : Db → Db → Type 0} (c : ExceptionClosed R) where
  pub resolve_unpriced-Relates : (o : Outward) → Relates R (resolve_unpriced_when_complete o)
  unfolding resolve_unpriced_when_complete
  resolve_unpriced-Relates o = search (exception_rules, resolve_each-Relates) depth 9

decide_rate-KeepsRates :
    (s : Session) (decision : Review) (a : FieldAssertion) (o : Outward)
    → Relates KeepsRates (decide_rate s decision a o)
unfolding decide_rate
decide_rate-KeepsRates s Review.invalid a o = search (exception_rules, KeepsRates-Closed)
decide_rate-KeepsRates s Review.reject a o =
    save_off-KeepsRates s true
      (record a { reviewed_by = some s.user; status = AssertionStatus.rejected }) refl
decide_rate-KeepsRates s Review.activate a o =
    by_runs (decide_rate s Review.activate a o) λ db db' saved h.
      after_bind (activate_rate s a o)
        (λ _. save_field_assertion s true (activated s a) >>= λ saved.
          resolve_unpriced_when_complete o >> pure saved)
        db db' saved h
        λ u m0 e0 h0.
          after_bind (save_field_assertion s true (activated s a))
            (λ saved. resolve_unpriced_when_complete o >> pure saved) m0 db' saved h0
            λ x m1 e1 h1.
              let c = activate_rate-RateCleared s a o db m0 u e0 in
              let k = save_on-KeepsRates s (activated s a) x m0 m1 c.clear e1 in
              let j =
                ended (resolve_unpriced_when_complete o >> pure x) m1 db' saved
                  (then_rule KeepsRates-Closed (resolve_unpriced_when_complete o) (λ _. pure x)
                    (resolve_unpriced-Relates KeepsRates-Closed o)
                    λ _. answer_rule KeepsRates-Closed x)
                  h1 in
              record { sole = λ was. j.sole (k.sole (c.kept.sole was)) }

pub review_field_assertion-KeepsRates :
    (s : Session) (before : Db) (n : ℕ) (decision : Review)
    → Relates KeepsRates (review_field_assertion s before n decision)
unfolding review_field_assertion load_rate_under_lock review_locked_rate
review_field_assertion-KeepsRates s before n decision =
    search (exception_rules, KeepsRates-Closed, decide_rate-KeepsRates) depth 16
