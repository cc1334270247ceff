-- ===== src/FieldAssertions/Drafting.antt =====
-- The draft and the submission of a rate leave one active rate of a target at most.
use fresko_universe.Data.{
  RateFacts, FieldAssertion, Session, Digests, is_assertion, AssertionStatus,
}
use fresko_universe.Db.{
  throw_if, ◌then_check◌, M, ◌>>=◌, ◌>>◌, pure, reads, field_assertion_key, write_field_assertion,
  fresh, ignore, bind-ok, check-ok, query-ok, after-ok, Db, ok, Error,
}
use fresko_universe.Db.Relates.{by_runs, Relates}
use fresko_universe.FieldAssertions.{
  canonical_decimal, is_active_rate, validate_field_assertion, save_field_assertion, rate_terms,
  before_insert_rate, insert_field_assertion, rate_winner, recover_rate, replay_or_insert_rate,
  create_rate_assertion, load_rate_under_lock, submit_locked_rate, submit_field_assertion,
  RateRequest,
}
use fresko_universe.FieldAssertions.Activating.{KeepsRates-Closed}
use fresko_universe.FieldAssertions.Sole.{
  SameTarget, SoleRate, validate_field_assertion-RateSaved, save_off-KeepsRates, KeepsRates,
}
use fresko_universe.Outwards.{load_outward_for_update}
use fresko_universe.Outwards.AfterPost.{exception_rules}
use fresko_universe.Prelude.{
  ℕ, ◌+◌, ◌≡◌, refl, subst, inl, inr, Bool, true, false, Option, none, some, arith, ◌==◌,
  Bool-cases, put_off-Sole, any, put,
}
use fresko_universe.Quantities.Aside.{duplicate_rule}

before_insert_rate-off :
    (s : Session) (service : Bool) (a b : FieldAssertion)
    → before_insert_rate s service a ≡ ok b
    → is_active_rate b ≡ false
unfolding before_insert_rate
before_insert_rate-off s false a b h = absurd (cc)
before_insert_rate-off s true a b h =
    elim (Bool-cases (is_assertion a.status AssertionStatus.draft)) [
      | inr e ↦ (let k = (rw (e, before_insert_rate) at h) in absurd (cc))
      | inl e ↦
          let (_, k) =
            after-ok (ignore (canonical_decimal a.rate) then_check rate_terms a.facts)
              (ok (record a {
                prepared_by = s.user;
                asserted_by = none;
                reviewed_by = none;
                activated_by = none;
                superseded_by = none;
              }))
              b (rw (e, before_insert_rate) at h) in
          let is : a.status ≡ b.status = (let j = k in cc) in rw (← is) (draft_off a.status e)
    ]
  where
    draft_off :
        (x : AssertionStatus)
        → is_assertion x AssertionStatus.draft ≡ true
        → is_assertion x AssertionStatus.active ≡ false
    draft_off x h = ground arith

insert_field_assertion-KeepsRates :
    (s : Session) (service : Bool) (f : ℕ → FieldAssertion)
    → Relates KeepsRates (insert_field_assertion s service f)
unfolding insert_field_assertion
insert_field_assertion-KeepsRates s service f =
    by_runs (insert_field_assertion s service f) λ db db' a h.
      let (n, m0, e0, h0) = bind-ok fresh prepared db db' a h in
      let (x, e1, h1) = query-ok (λ _. before_insert_rate s service (f n)) validated m0 db' a h0 in
      let (saved, e2, h2) =
        query-ok (λ db. validate_field_assertion s service none x db) written m0 db' a h1 in
      let (free, h3) =
        check-ok
          (λ db.
            throw_if (any (λ x. x.assertion_key == saved.assertion_key) db.field_assertions)
              Error.unique_violation)
          (λ _. write_field_assertion saved >> pure saved) m0 db' a h2 in
      let k = validate_field_assertion-RateSaved s service none x saved m0 e2 in
      let off : is_active_rate saved ≡ false =
        rw (k.status) (before_insert_rate-off s service (f n) x e1) in
      let first : record db { next_name = db.next_name + 1 } ≡ m0 = cc in
      let left : record m0 { field_assertions = put field_assertion_key saved m0.field_assertions }
          ≡ db' =
        cc in
      record {
        sole = λ u.
            subst (λ (y : Db). SoleRate y.field_assertions) left
              (put_off-Sole field_assertion_key is_active_rate SameTarget saved m0.field_assertions
                off (subst (λ (y : Db). SoleRate y.field_assertions) first u));
      }
  where
    written : FieldAssertion → M FieldAssertion
    written saved =
        reads (λ db.
          throw_if (any (λ x. x.assertion_key == saved.assertion_key) db.field_assertions)
            Error.unique_violation)
        >> (write_field_assertion saved >> pure saved)

    validated : FieldAssertion → M FieldAssertion
    validated x = reads (λ db. validate_field_assertion s service none x db) >>= written

    prepared : ℕ → M FieldAssertion
    prepared n = reads (λ _. before_insert_rate s service (f n)) >>= validated

ruleset rate_rules = (exception_rules, duplicate_rule, KeepsRates-Closed)

rate_winner-KeepsRates :
    (s : Session) (payload : ℕ) (before : Db) (x : Option FieldAssertion)
    → Relates KeepsRates (rate_winner s payload before x)
unfolding rate_winner
rate_winner-KeepsRates s payload before (some a) = search rate_rules
rate_winner-KeepsRates s payload before none = search rate_rules

replay_or_insert_rate-KeepsRates :
    (g : Digests) (s : Session) (before : Db) (x : Option FieldAssertion) (f : RateFacts)
    → Relates KeepsRates (replay_or_insert_rate g s before x f)
unfolding replay_or_insert_rate recover_rate
replay_or_insert_rate-KeepsRates g s before (some a) f = search rate_rules
replay_or_insert_rate-KeepsRates g s before none f =
    search (rate_rules, insert_field_assertion-KeepsRates, rate_winner-KeepsRates) depth 9

pub create_rate_assertion-KeepsRates :
    (g : Digests) (s : Session) (before : Db) (r : RateRequest)
    → Relates KeepsRates (create_rate_assertion g s before r)
unfolding create_rate_assertion load_outward_for_update
create_rate_assertion-KeepsRates g s before r =
    search (rate_rules, replay_or_insert_rate-KeepsRates) depth 18

save_pending-KeepsRates :
    (s : Session) (a : FieldAssertion)
    → Relates KeepsRates (
        save_field_assertion s true
          (record a { status = AssertionStatus.review_pending; asserted_by = some s.user }))
save_pending-KeepsRates s a =
    save_off-KeepsRates s true
      (record a { status = AssertionStatus.review_pending; asserted_by = some s.user }) refl

pub submit_field_assertion-KeepsRates :
    (s : Session) (before : Db) (n : ℕ) → Relates KeepsRates (submit_field_assertion s before n)
unfolding submit_field_assertion load_rate_under_lock submit_locked_rate
submit_field_assertion-KeepsRates s before n = search (rate_rules, save_pending-KeepsRates) depth 18
