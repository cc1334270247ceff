-- ===== src/Examples/Rates.antt =====
-- A rate of a posted Outward.
-- The posted Outward, and its evidence.
use fresko_universe.Data.{FieldAssertion, Provenance, AssertionStatus, Review}
use fresko_universe.Db.{Db, ok}
use fresko_universe.Examples.{
  runs, units, outward_a, seller, approver_user, answer_of, state_of, ledger_runs,
}
use fresko_universe.Examples.Ledger.{digests, db_a}
use fresko_universe.FieldAssertions.{
  review_field_assertion, rate_facts, draft_rate, create_rate_assertion, submit_field_assertion,
  RateRequest,
}
use fresko_universe.Prelude.{◌≡◌, refl, none, some, [], ◌∷◌}

abbrev billed : Db
billed = record db_a { outwards = outward_a ∷ [] }

-- A rate of the posted Outward is drafted, submitted and activated.
abbrev rate_request : RateRequest
rate_request = record {
  outward_name = 14;
  outward_line_key = none;
  assertion_basis = Provenance.user_confirmed;
  raw_value = some 221;
  rate = some (units 12);
  evidence = 16;
  effective_at = some 222;
  reason = some 223;
  supersedes = none;
  currency = some 61;
  rate_uom = some 3;
}

abbrev empty_rate : FieldAssertion
empty_rate = draft_rate digests seller (rate_facts rate_request) 0

abbrev rated : Db
rated = state_of billed (create_rate_assertion digests seller billed rate_request billed)

rate-ok :
    create_rate_assertion digests seller billed rate_request billed
    ≡ ok (
      answer_of empty_rate (create_rate_assertion digests seller billed rate_request billed),
      rated,
    )
unfolding runs ledger_runs
rate-ok = refl

abbrev rate_pending : Db
rate_pending = state_of rated (submit_field_assertion seller rated 100 rated)

rate_submission-ok :
    submit_field_assertion seller rated 100 rated
    ≡ ok (answer_of empty_rate (submit_field_assertion seller rated 100 rated), rate_pending)
unfolding runs ledger_runs
rate_submission-ok = refl

abbrev priced : Db
priced =
    state_of rate_pending
      (review_field_assertion approver_user rate_pending 100 Review.activate rate_pending)

abbrev active_rate : FieldAssertion
active_rate =
    answer_of empty_rate
      (review_field_assertion approver_user rate_pending 100 Review.activate rate_pending)

rate_review-ok :
    review_field_assertion approver_user rate_pending 100 Review.activate rate_pending
    ≡ ok (active_rate, priced)
unfolding runs ledger_runs
rate_review-ok = refl

rate_active : active_rate.status ≡ AssertionStatus.active
unfolding runs ledger_runs
rate_active = refl
