-- ===== src/Examples/Claims.antt =====
-- A quantity assertion is drafted, submitted and activated; an Exception is not saved.
use fresko_universe.Data.{
  QuantityAssertion, ExceptionDoc, Basis, Provenance, AssertionStatus, Review,
}
use fresko_universe.Db.{Db, ok, err, Error}
use fresko_universe.Examples.{runs, units, seller, approver_user, answer_of, state_of, ledger_runs}
use fresko_universe.Examples.Ledger.{digests, db_a}
use fresko_universe.ExceptionRules.{no_service, save_exception}
use fresko_universe.ExceptionRules.Refused.{is_scoped, save_exception-refused}
use fresko_universe.Prelude.{◌≡◌, refl, inl, true, none, some}
use fresko_universe.Quantities.{
  variance_exception, review_quantity_assertion, quantity_facts, draft_assertion,
  create_quantity_assertion, submit_quantity_assertion, QuantityRequest,
}
use fresko_universe.Quantities.Reviewed.{review_quantity_assertion-ReviewOutcome, ReviewOutcome}

abbrev operating_request : QuantityRequest
operating_request = record {
  container = 1;
  basis = some Basis.operating_inward;
  raw_value = some 301;
  quantity = some (units 95);
  uom = some 3;
  raw_uom = some 302;
  evidence = 16;
  effective_at = some 303;
  provenance = some Provenance.user_confirmed;
  reason = some 304;
  source_fact_id = some 305;
  supersedes = none;
}

abbrev claimed : Db
claimed = state_of db_a (create_quantity_assertion digests seller db_a operating_request db_a)

abbrev empty_assertion : QuantityAssertion
empty_assertion =
    draft_assertion digests seller
      (quantity_facts operating_request Basis.operating_inward Provenance.user_confirmed) 0

abbrev submitted_claim : Db
submitted_claim = state_of claimed (submit_quantity_assertion seller claimed 100 claimed)

abbrev reviewed : Db
reviewed = state_of submitted_claim (
    review_quantity_assertion digests approver_user 7 submitted_claim 100 Review.activate
      submitted_claim)

abbrev active_a : QuantityAssertion
active_a = answer_of empty_assertion (
    review_quantity_assertion digests approver_user 7 submitted_claim 100 Review.activate
      submitted_claim)

review-ok :
    review_quantity_assertion digests approver_user 7 submitted_claim 100 Review.activate
      submitted_claim
    ≡ ok (active_a, reviewed)
unfolding runs ledger_runs
review-ok = refl

review_active : active_a.status ≡ AssertionStatus.active
unfolding runs ledger_runs
review_active = refl

review_quantity_assertion-ReviewOutcome_example :
    ReviewOutcome approver_user 100 Review.activate active_a submitted_claim reviewed
review_quantity_assertion-ReviewOutcome_example =
    review_quantity_assertion-ReviewOutcome digests approver_user 7 submitted_claim 100
      Review.activate active_a submitted_claim reviewed review-ok

-- An Exception that bears an assertion's links.
abbrev variance_a : ExceptionDoc
variance_a =
    variance_exception digests 1
      (record {
        declared = 101;
        operating = 100;
        uom = some 3;
        declared_quantity = units 100;
        operating_quantity = units 95;
      })
      120

variance_scoped : is_scoped variance_a ≡ true
unfolding runs ledger_runs
variance_scoped = refl

save_exception-refused_example :
    (e : Error) × (save_exception no_service variance_a reviewed ≡ err e)
save_exception-refused_example = save_exception-refused variance_a reviewed (inl variance_scoped)
