-- ===== src/Examples/Deciding.antt =====
-- The rate rules, a decision, an accepted counter and runs of requests.
use fresko_universe.Approvals.{decide}
use fresko_universe.Approvals.Outcome.{decide-Decided, Decided}
use fresko_universe.Data.{Deal, Approval, DealStatus, Decision}
use fresko_universe.Db.{deal_key, Db, Result, ok}
use fresko_universe.DealDoc.Evolves.{Evolves}
use fresko_universe.DealDoc.KeepsKeys.{KeepsKeys}
use fresko_universe.Deals.{load_counter_approval, accept_counter, cancel_deal, apply_rate_rules}
use fresko_universe.Deals.Acceptance.{accept_counter-CounterAccepted, CounterAccepted}
use fresko_universe.Deals.AutoApproval.{apply_rate_rules-AutoApproved, AutoApproved}
use fresko_universe.Deals.Cancelling.{cancel_deal-cancel_deal}
use fresko_universe.Deals.Offers.{load_counter_approval-Offer, Offer}
use fresko_universe.Examples.{
  runs, units, deal_a, db_of, seller, approver_user, answer_of, state_of, numerals,
}
use fresko_universe.Lifecycle.{Reaches, by_rate_rules, by_cancelling, here, next}
use fresko_universe.Lifecycle.Final.{Reaches-Evolves, final_kept}
use fresko_universe.Lifecycle.Keys.{Reaches-KeepsKeys}
use fresko_universe.Prelude.{◌≡◌, refl, true, false, none, some, [], ◌∷◌, find, NamesDiffer}

abbrev db_0 : Db
db_0 = db_of deal_a

names_differ : (d : Deal) → NamesDiffer deal_key (db_of d).deals
unfolding find
names_differ d = (refl, tt)

abbrev rated : Result (Deal × Db)
rated = apply_rate_rules seller db_0 5 db_0

rated-ok : apply_rate_rules seller db_0 5 db_0 ≡ ok (answer_of deal_a rated, state_of db_0 rated)
unfolding runs
rated-ok = refl

rated-auto : (answer_of deal_a rated).status ≡ DealStatus.auto_approved
unfolding runs
rated-auto = refl

apply_rate_rules-AutoApproved_example :
    AutoApproved 5 (answer_of deal_a rated) db_0 (state_of db_0 rated)
apply_rate_rules-AutoApproved_example =
    apply_rate_rules-AutoApproved seller db_0 5 (answer_of deal_a rated) db_0 (state_of db_0 rated)
      (names_differ deal_a) rated-ok rated-auto

-- The Deal waits for a decision.
abbrev waiting : Deal
waiting = record deal_a {
  status = DealStatus.approval_required;
  rate_floor = some (units 16);
  approval_required = true;
}

abbrev db_1 : Db
db_1 = db_of waiting

abbrev decided : Result (Deal × Db)
decided = decide approver_user db_1 5 Decision.approve none (some 1) false db_1

decided-ok :
    decide approver_user db_1 5 Decision.approve none (some 1) false db_1
    ≡ ok (answer_of waiting decided, state_of db_1 decided)
unfolding runs
decided-ok = refl

decide-Decided_example :
    Decided approver_user 5 Decision.approve none
      (some 1)
      false
      (answer_of waiting decided)
      db_1
      (state_of db_1 decided)
decide-Decided_example =
    decide-Decided approver_user db_1 5 Decision.approve none (some 1) false
      (answer_of waiting decided) db_1 (state_of db_1 decided) (names_differ waiting) decided-ok

-- The Deal was countered, and its owner accepts.
abbrev counter_approval : Approval
counter_approval = record {
  name = 9;
  deal = 5;
  revision = none;
  decision = Decision.counter;
  decision_rate = some (units 17);
  proposed_rate = units 15;
  rate_floor = some (units 16);
  rate_ceiling = none;
  approver = 73;
  reason = some 1;
  oversell_override = false;
  exception = none;
  consumed = false;
}

abbrev countered_deal : Deal
countered_deal = record waiting { status = DealStatus.countered; approval = some 9 }

abbrev db_2 : Db
db_2 = record (db_of countered_deal) { approvals = counter_approval ∷ [] }

abbrev accepted : Result (Deal × Db)
accepted = accept_counter seller db_2 5 db_2

accepted-ok :
    accept_counter seller db_2 5 db_2
    ≡ ok (answer_of countered_deal accepted, state_of db_2 accepted)
unfolding runs
accepted-ok = refl

accept_counter-CounterAccepted_example :
    CounterAccepted seller 5 (answer_of countered_deal accepted) db_2 (state_of db_2 accepted)
accept_counter-CounterAccepted_example =
    accept_counter-CounterAccepted seller db_2 5 (answer_of countered_deal accepted) db_2
      (state_of db_2 accepted) (names_differ countered_deal) accepted-ok

counter_loaded : load_counter_approval countered_deal db_2 ≡ some counter_approval
unfolding runs
counter_loaded = refl

load_counter_approval-Offer_example : Offer countered_deal counter_approval
load_counter_approval-Offer_example =
    load_counter_approval-Offer countered_deal db_2 counter_approval counter_loaded

abbrev run : Reaches numerals db_0 (state_of db_0 rated)
run = next here (by_rate_rules seller db_0 5 (answer_of deal_a rated) rated-ok)

Reaches-Evolves_example : Evolves db_0 (state_of db_0 rated)
Reaches-Evolves_example = Reaches-Evolves run

Reaches-KeepsKeys_example : KeepsKeys db_0 (state_of db_0 rated)
Reaches-KeepsKeys_example = Reaches-KeepsKeys run

-- A proposed Deal, cancelled twice.
abbrev cancelled : Result (Deal × Db)
cancelled = cancel_deal seller 5 (some 2) db_0

cancelled_now-ok :
    cancel_deal seller 5 (some 2) db_0 ≡ ok (answer_of deal_a cancelled, state_of db_0 cancelled)
unfolding runs
cancelled_now-ok = refl

cancel_deal-cancel_deal_example :
    cancel_deal seller 5 (some 4) (state_of db_0 cancelled)
    ≡ ok (answer_of deal_a cancelled, state_of db_0 cancelled)
cancel_deal-cancel_deal_example =
    cancel_deal-cancel_deal seller 5 (some 2) (some 4) (answer_of deal_a cancelled) db_0
      (state_of db_0 cancelled) refl cancelled_now-ok

-- A cancelled Deal, cancelled again.
abbrev cancelled_deal : Deal
cancelled_deal = record deal_a { status = DealStatus.cancelled; cancel_reason = some 2 }

abbrev db_3 : Db
db_3 = db_of cancelled_deal

cancelled-ok : cancel_deal seller 5 (some 2) db_3 ≡ ok (cancelled_deal, db_3)
unfolding runs
cancelled-ok = refl

cancelled_found : find deal_key 5 db_3.deals ≡ some cancelled_deal
unfolding runs
cancelled_found = refl

abbrev cancelled_run : Reaches numerals db_3 db_3
cancelled_run = next here (by_cancelling seller 5 (some 2) cancelled_deal cancelled-ok)

final_kept_example :
    (d' : Deal) × (find deal_key 5 db_3.deals ≡ some d') × (d'.status ≡ DealStatus.cancelled)
final_kept_example = final_kept cancelled_run 5 cancelled_deal cancelled_found tt
