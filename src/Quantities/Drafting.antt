-- ===== src/Quantities/Drafting.antt =====
-- A draft and its submission leave one active assertion of a scope at most.
use fresko_universe.Data.{QuantityAssertion, Session, Digests, is_assertion, AssertionStatus}
use fresko_universe.Db.{
  throw_if, M, ◌>>=◌, ◌>>◌, pure, reads, quantity_key, write_assertion, fresh, bind-ok, check-ok,
  query-ok, after-ok, Db, ok, Error,
}
use fresko_universe.Db.Relates.{by_runs, Relates}
use fresko_universe.Outwards.AfterPost.{ExceptionClosed, exception_rules}
use fresko_universe.Prelude.{
  ℕ, ◌+◌, ◌≡◌, refl, subst, inl, inr, Bool, true, false, Option, none, some, arith, ◌==◌,
  Bool-cases, any, put,
}
use fresko_universe.Quantities.{
  replay_found, replay_or_insert, create_quantity_assertion, locked_assertion,
  submit_quantity_assertion, QuantityRequest, quantity_check, validate_payload, is_active_now,
  validate_assertion_of, validate_assertion, save_assertion, before_insert_assertion,
  insert_assertion,
}
use fresko_universe.Quantities.Aside.{duplicate_rule}
use fresko_universe.Quantities.Deciding.{save_inactive}
use fresko_universe.Quantities.Sole.{
  SoleActive, put_inactive-SoleActive, validate_assertion_of-Kept,
}

-- Where a scope has one active assertion at most, that stays so.
pub record KeepsSole (db db' : Db) : Type 0 where
  pub sole : SoleActive db.assertions → SoleActive db'.assertions

pub KeepsSole-Closed : ExceptionClosed KeepsSole
KeepsSole-Closed = record {
  same = λ x. record { sole = λ u. u };
  joined = λ x y z h k. record { sole = λ u. k.sole (h.sole u) };
  exception_written = λ x. record { at = λ db. record { sole = λ u. u } };
  name_given = record { at = λ db. record { sole = λ u. u } };
}

ruleset sole_rules = (exception_rules, duplicate_rule, KeepsSole-Closed)

before_insert-draft :
    (s : Session) (service : Bool) (a b : QuantityAssertion)
    → before_insert_assertion s service a ≡ ok b
    → is_active_now b ≡ false
unfolding before_insert_assertion
before_insert-draft s false a b h = absurd (cc)
before_insert-draft s true a b h = elim (Bool-cases (is_assertion a.status AssertionStatus.draft)) [
  | inr e ↦ (let k = (rw (e, before_insert_assertion) at h) in absurd (cc))
  | inl e ↦
      let (_, k) =
        after-ok (quantity_check a.quantity)
          (ok (record a {
            prepared_by = s.user;
            reviewed_by = none;
            activated_by = none;
            superseded_by = none;
          }))
          b (rw (e, before_insert_assertion) at h) in
      let is : a.status ≡ b.status = (let j = k in cc) in rw (← is) (draft_off a.status e)
]
  where
    draft_off :
        (x : AssertionStatus)
        → is_assertion x AssertionStatus.draft ≡ true
        → is_assertion x AssertionStatus.active ≡ false
    draft_off x h = ground arith

insert_assertion-KeepsSole :
    (s : Session) (service : Bool) (f : ℕ → QuantityAssertion)
    → Relates KeepsSole (insert_assertion s service f)
unfolding insert_assertion validate_assertion
insert_assertion-KeepsSole s service f = by_runs (insert_assertion s service f) λ db db' a h.
    let (n, m0, e0, h0) = bind-ok fresh prepared db db' a h in
    let (x, e1, h1) =
      query-ok (λ _. before_insert_assertion s service (f n)) validated m0 db' a h0 in
    let (saved, e2, h2) =
      query-ok (λ db. validate_assertion s 0 service none x db) written m0 db' a h1 in
    let (free, h3) =
      check-ok
        (λ db.
          throw_if (any (λ x. x.assertion_key == saved.assertion_key) db.assertions)
            Error.unique_violation)
        (λ _. write_assertion saved >> pure saved) m0 db' a h2 in
    let (_, v) =
      after-ok (validate_payload x.facts) (validate_assertion_of s 0 service none x m0) saved e2 in
    let k = validate_assertion_of-Kept s 0 service none x saved m0 v in
    let off : is_active_now saved ≡ false =
      rw (k.status) (before_insert-draft s service (f n) x e1) in
    let first : record db { next_name = db.next_name + 1 } ≡ m0 = cc in
    let left : record m0 { assertions = put quantity_key saved m0.assertions } ≡ db' = cc in
    record {
      sole = λ u.
          subst (λ (y : Db). SoleActive y.assertions) left
            (put_inactive-SoleActive saved m0.assertions off
              (subst (λ (y : Db). SoleActive y.assertions) first u));
    }
  where
    written : QuantityAssertion → M QuantityAssertion
    written saved =
        reads (λ db.
          throw_if (any (λ x. x.assertion_key == saved.assertion_key) db.assertions)
            Error.unique_violation)
        >> (write_assertion saved >> pure saved)

    validated : QuantityAssertion → M QuantityAssertion
    validated x = reads (λ db. validate_assertion s 0 service none x db) >>= written

    prepared : ℕ → M QuantityAssertion
    prepared n = reads (λ _. before_insert_assertion s service (f n)) >>= validated

replay_found-KeepsSole :
    (s : Session) (payload : ℕ) (x : Option QuantityAssertion) (m : M QuantityAssertion)
    → Relates KeepsSole m
    → Relates KeepsSole (replay_found s payload x m)
unfolding replay_found
replay_found-KeepsSole s payload (some a) m h = search sole_rules
replay_found-KeepsSole s payload none m h = h

pub create_quantity_assertion-KeepsSole :
    (g : Digests) (s : Session) (before : Db) (r : QuantityRequest)
    → Relates KeepsSole (create_quantity_assertion g s before r)
unfolding create_quantity_assertion replay_or_insert
create_quantity_assertion-KeepsSole g s before r =
    search (sole_rules, replay_found-KeepsSole, insert_assertion-KeepsSole) depth 14

save_pending-KeepsSole :
    (s : Session) (a : QuantityAssertion)
    → Relates KeepsSole
        (save_assertion s 0 true (record a { status = AssertionStatus.review_pending }))
save_pending-KeepsSole s a =
    by_runs (save_assertion s 0 true (record a { status = AssertionStatus.review_pending }))
      λ db db' saved h. record {
        sole =
            (save_inactive s 0 true (record a { status = AssertionStatus.review_pending }) saved db
              db' refl h).sole;
      }

pub submit_quantity_assertion-KeepsSole :
    (s : Session) (before : Db) (n : ℕ) → Relates KeepsSole (submit_quantity_assertion s before n)
unfolding submit_quantity_assertion locked_assertion
submit_quantity_assertion-KeepsSole s before n =
    search (sole_rules, save_pending-KeepsSole) depth 14
