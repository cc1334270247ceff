-- ===== src/Examples/Ledger.antt =====
-- An Outward is drafted, submitted, posted and reversed.
use fresko_universe.Data.{Outward, Evidence, Digests, basis_code, OutwardStatus}
use fresko_universe.Db.{outward_key, Db, ok}
use fresko_universe.Examples.{
  runs, units, deal_a, db_of, outward_a, seller, approver_user, answer_of, state_of, numerals,
  ledger_runs,
}
use fresko_universe.Ledger.{Runs, by_outward, by_reversal, by_submission, by_posting, start, step}
use fresko_universe.Ledger.Kept.{Runs-LedgerKept}
use fresko_universe.Ledger.Parts.{LedgerKept}
use fresko_universe.Outwards.{
  create_outward_reversal, ReversalRequest, post_outward, create_outward, submit_outward_for_review,
  OutwardRequest,
}
use fresko_universe.Outwards.Posted.{post_outward-PostOutcome, PostOutcome}
use fresko_universe.Outwards.Replayed.{create_outward-Repeats, Repeats}
use fresko_universe.Outwards.Reversed.{create_outward_reversal-Mirrors, Reversal}
use fresko_universe.Prelude.{◌+◌, ◌*◌, ◌≡◌, refl, none, some, [], ◌∷◌, find}

-- Texts are hashed to numbers that tell the examples apart.
abbrev pub digests : Digests
digests = record {
  outward_event = λ container evidence event. container * 10000 + evidence * 100 + event;
  outward_line = λ event ref. event * 100 + ref;
  index_text = λ idx. idx;
  outward_payload = λ f. f.container * 1000 + f.source_evidence;
  gatepass_comparison_key = λ text. some text;
  quantity_identity =
      λ container basis evidence fact. container * 1000 + evidence + basis_code basis;
  quantity_payload = λ f. f.container * 1000 + f.evidence;
  rate_payload = λ f. f.outward;
  variance_key = λ container declared operating. container * 10000 + declared * 100 + operating;
}

abbrev pub evidence_a : Evidence
evidence_a = record { name = 16; container = some 1; deal = none }

-- The Container with its evidence, and nothing else.
abbrev pub db_a : Db
db_a = record (db_of deal_a) { deals = []; evidences = evidence_a ∷ [] }

abbrev request_a : OutwardRequest
request_a = record {
  container = 1;
  movement_at = some 208;
  source_evidence = 16;
  source_event_id = some 9;
  lines =
      record {
        source_line_ref = some 1;
        raw_lot_text = some 203;
        lot_no = some 11;
        batch = none;
        qty = units 30;
        uom = some 3;
        raw_qty_text = some 204;
        raw_uom_text = some 205;
        raw_rate_text = none;
      }
      ∷ [];
  posting_reason = none;
  deal = none;
  gatepass_no = some 206;
  vehicle_no = none;
  raw_party_name = none;
}

abbrev drafted : Db
drafted = state_of db_a (create_outward digests seller db_a request_a db_a)

abbrev draft_a : Outward
draft_a = answer_of outward_a (create_outward digests seller db_a request_a db_a)

draft-ok : create_outward digests seller db_a request_a db_a ≡ ok (draft_a, drafted)
unfolding runs ledger_runs
draft-ok = refl

create_outward-Repeats_example : Repeats digests seller request_a draft_a db_a drafted
create_outward-Repeats_example =
    create_outward-Repeats digests seller request_a draft_a db_a drafted draft-ok

-- Submitted by its maker.
abbrev submitted : Db
submitted = state_of drafted (submit_outward_for_review seller drafted 100 drafted)

abbrev pending_a : Outward
pending_a = answer_of outward_a (submit_outward_for_review seller drafted 100 drafted)

submission-ok : submit_outward_for_review seller drafted 100 drafted ≡ ok (pending_a, submitted)
unfolding runs ledger_runs
submission-ok = refl

-- Posted by another user.
abbrev posted_db : Db
posted_db = state_of submitted (post_outward approver_user submitted 100 submitted)

abbrev posted_a : Outward
posted_a = answer_of outward_a (post_outward approver_user submitted 100 submitted)

posting-ok : post_outward approver_user submitted 100 submitted ≡ ok (posted_a, posted_db)
unfolding runs ledger_runs
posting-ok = refl

post_outward-PostOutcome_example : PostOutcome approver_user 100 posted_a submitted posted_db
post_outward-PostOutcome_example =
    post_outward-PostOutcome approver_user submitted 100 posted_a submitted posted_db posting-ok

-- A reversal of it.
abbrev reversal_request : ReversalRequest
reversal_request = record {
  outward_name = 100;
  movement_at = some 218;
  source_evidence = 16;
  source_event_id = some 10;
  reason = some 219;
}

abbrev reversed_db : Db
reversed_db =
    state_of posted_db (create_outward_reversal digests seller posted_db reversal_request posted_db)

abbrev reversal_a : Outward
reversal_a =
    answer_of outward_a
      (create_outward_reversal digests seller posted_db reversal_request posted_db)

reversal-ok :
    create_outward_reversal digests seller posted_db reversal_request posted_db
    ≡ ok (reversal_a, reversed_db)
unfolding runs ledger_runs
reversal-ok = refl

create_outward_reversal-Mirrors_example :
    Reversal digests seller posted_db reversal_request reversal_a posted_db reversed_db
create_outward_reversal-Mirrors_example =
    create_outward_reversal-Mirrors digests seller posted_db reversal_request reversal_a posted_db
      reversed_db reversal-ok

-- What became of the Outwards.
reversal_draft : reversal_a.status ≡ OutwardStatus.draft
unfolding runs ledger_runs
reversal_draft = refl

-- The four requests as one run.
new_outward : find outward_key db_a.next_name db_a.outwards ≡ none
unfolding runs
new_outward = refl

new_reversal : find outward_key posted_db.next_name posted_db.outwards ≡ none
unfolding runs ledger_runs
new_reversal = refl

abbrev four_requests : Runs digests numerals db_a reversed_db
four_requests =
    step
      (step
        (step (step start (by_outward seller db_a request_a draft_a new_outward draft-ok))
          (by_submission seller drafted 100 pending_a submission-ok))
        (by_posting approver_user submitted 100 posted_a posting-ok))
      (by_reversal seller posted_db reversal_request reversal_a new_reversal reversal-ok)

Runs-LedgerKept_example : LedgerKept db_a reversed_db
Runs-LedgerKept_example = Runs-LedgerKept four_requests
