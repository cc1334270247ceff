-- ===== src/FieldAssertions/Beside.antt =====
-- The operations on rates write Field Assertions and Exceptions, and no other table.
use fresko_universe.Data.{Outward, RateFacts, FieldAssertion, Session, Digests, Review}
use fresko_universe.Db.{write_field_assertion, Db}
use fresko_universe.Db.Relates.{Relates}
use fresko_universe.FieldAssertions.{
  supersede_rate, activate_rate_over, activate_rate, decide_rate, review_locked_rate,
  review_field_assertion, save_field_assertion, insert_field_assertion, rate_winner, recover_rate,
  replay_or_insert_rate, create_rate_assertion, load_rate_under_lock, submit_locked_rate,
  submit_field_assertion, RateRequest,
}
use fresko_universe.FieldAssertions.Activating.{resolve_unpriced-Relates}
use fresko_universe.Outwards.{load_outward_for_update}
use fresko_universe.Outwards.AfterPost.{ExceptionClosed, exception_rules}
use fresko_universe.Prelude.{ℕ, ◌≡◌, refl, ◌∙◌, Bool, Option, none, some, Ref}
use fresko_universe.Quantities.Aside.{duplicate_rule}

-- The Outwards, the quantity assertions and the Deals are as they were.
pub record Beside (db db' : Db) : Type 0 where
  pub outwards : db'.outwards ≡ db.outwards
  pub assertions : db'.assertions ≡ db.assertions
  pub deals : db'.deals ≡ db.deals

Beside-Closed : ExceptionClosed Beside
Beside-Closed = record {
  same = λ x. record { outwards = refl; assertions = refl; deals = refl };
  joined = λ x y z h k. record {
    outwards = k.outwards ∙ h.outwards;
    assertions = k.assertions ∙ h.assertions;
    deals = k.deals ∙ h.deals;
  };
  exception_written =
      λ x. record { at = λ db. record { outwards = refl; assertions = refl; deals = refl } };
  name_given = record { at = λ db. record { outwards = refl; assertions = refl; deals = refl } };
}

write_field_assertion-Beside : (a : FieldAssertion) → Relates Beside (write_field_assertion a)
write_field_assertion-Beside a = record {
  at = λ db. record { outwards = refl; assertions = refl; deals = refl };
}

ruleset beside_rules =
    (exception_rules, duplicate_rule, Beside-Closed, write_field_assertion-Beside)

save_field_assertion-Beside :
    (s : Session) (service : Bool) (a : FieldAssertion)
    → Relates Beside (save_field_assertion s service a)
unfolding save_field_assertion
save_field_assertion-Beside s service a = search beside_rules

insert_field_assertion-Beside :
    (s : Session) (service : Bool) (f : ℕ → FieldAssertion)
    → Relates Beside (insert_field_assertion s service f)
unfolding insert_field_assertion
insert_field_assertion-Beside s service f = search beside_rules depth 14

rate_winner-Beside :
    (s : Session) (payload : ℕ) (before : Db) (x : Option FieldAssertion)
    → Relates Beside (rate_winner s payload before x)
unfolding rate_winner
rate_winner-Beside s payload before (some a) = search beside_rules
rate_winner-Beside s payload before none = search beside_rules

replay_or_insert_rate-Beside :
    (g : Digests) (s : Session) (before : Db) (x : Option FieldAssertion) (f : RateFacts)
    → Relates Beside (replay_or_insert_rate g s before x f)
unfolding replay_or_insert_rate recover_rate
replay_or_insert_rate-Beside g s before (some a) f = search beside_rules
replay_or_insert_rate-Beside g s before none f =
    search (beside_rules, insert_field_assertion-Beside, rate_winner-Beside) depth 9

pub create_rate_assertion-Beside :
    (g : Digests) (s : Session) (before : Db) (r : RateRequest)
    → Relates Beside (create_rate_assertion g s before r)
unfolding create_rate_assertion load_outward_for_update
create_rate_assertion-Beside g s before r =
    search (beside_rules, replay_or_insert_rate-Beside) depth 18

pub submit_field_assertion-Beside :
    (s : Session) (before : Db) (n : ℕ) → Relates Beside (submit_field_assertion s before n)
unfolding submit_field_assertion load_rate_under_lock submit_locked_rate
submit_field_assertion-Beside s before n =
    search (beside_rules, save_field_assertion-Beside) depth 18

activate_rate_over-Beside :
    (s : Session) (a : FieldAssertion) (r : Ref) → Relates Beside (activate_rate_over s a r)
unfolding activate_rate_over supersede_rate
activate_rate_over-Beside s a none = search beside_rules
activate_rate_over-Beside s a (some n) = search (beside_rules, save_field_assertion-Beside) depth 9

decide_rate-Beside :
    (s : Session) (decision : Review) (a : FieldAssertion) (o : Outward)
    → Relates Beside (decide_rate s decision a o)
unfolding decide_rate activate_rate
decide_rate-Beside s Review.activate a o =
    search
      (
        beside_rules, save_field_assertion-Beside, activate_rate_over-Beside,
        resolve_unpriced-Relates,
      )
      depth 12
decide_rate-Beside s Review.reject a o = search (beside_rules, save_field_assertion-Beside)
decide_rate-Beside s Review.invalid a o = search beside_rules

pub review_field_assertion-Beside :
    (s : Session) (before : Db) (n : ℕ) (decision : Review)
    → Relates Beside (review_field_assertion s before n decision)
unfolding review_field_assertion load_rate_under_lock review_locked_rate
review_field_assertion-Beside s before n decision =
    search (beside_rules, decide_rate-Beside) depth 18
