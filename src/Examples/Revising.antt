-- ===== src/Examples/Revising.antt =====
-- A Revision that is applied, and saves.
use fresko_universe.Data.{
  Deal, Approval, Revision, no_flags, DealStatus, Decision, RevisionStatus, FieldName,
}
use fresko_universe.Db.{pass, deal_key, revision_key, Db, Result, ok}
use fresko_universe.DealDoc.{
  message_taken, fingerprint_taken, validate_idempotency_keys, save_deal, insert_deal,
}
use fresko_universe.DealDoc.Frozen.{save_deal-SaveKeeps, SaveKeeps}
use fresko_universe.DealDoc.Inserted.{insert_deal-Inserted, Inserted}
use fresko_universe.DealDoc.Keys.{KeyFree, validate_idempotency_keys_iff}
use fresko_universe.DealDoc.Lots.{save_deal-HasLot, HasLot}
use fresko_universe.Examples.{
  runs, units, deal_a, db_of, approver_user, answer_of, state_of, numerals,
}
use fresko_universe.Lifecycle.{Reaches, by_desk, here, next}
use fresko_universe.Lifecycle.Applied.{applied_kept, applied_once}
use fresko_universe.Prelude.{
  ℕ, ◌≤◌, ◌≡◌, refl, true, false, none, some, [], ◌∷◌, arith, ◌↔◌, ◌==◌, find,
}
use fresko_universe.Revisions.{save_revision, apply_revision}
use fresko_universe.Revisions.History.{save_revision-frozen}
use fresko_universe.Revisions.Kept.{RevisionsBelow}
use fresko_universe.Revisions.Once.{apply_revision-Applied, Applied}

abbrev approved_deal : Deal
approved_deal = record deal_a { status = DealStatus.approved; approved_rate = some (units 15) }

abbrev revision_a : Revision
revision_a = record {
  name = 6;
  on_deal = true;
  parent_name = 5;
  fieldname = FieldName.customer;
  old_value = none;
  new_value = some 83;
  reason = some 1;
  supporting_evidence = some 4;
  status = RevisionStatus.pending;
  approval_reference = some 9;
  changed_by = 71;
}

abbrev revision_approval : Approval
revision_approval = record {
  name = 9;
  deal = 5;
  revision = some 6;
  decision = Decision.approve;
  decision_rate = some (units 15);
  proposed_rate = units 15;
  rate_floor = none;
  rate_ceiling = none;
  approver = 73;
  reason = some 1;
  oversell_override = false;
  exception = none;
  consumed = false;
}

abbrev db_4 : Db
db_4 = record (db_of approved_deal) {
  approvals = revision_approval ∷ [];
  revisions = revision_a ∷ [];
}

abbrev revised : Result (Revision × Db)
revised = apply_revision numerals approver_user 6 none db_4

revised-ok :
    apply_revision numerals approver_user 6 none db_4
    ≡ ok (answer_of revision_a revised, state_of db_4 revised)
unfolding runs
revised-ok = refl

apply_revision-Applied_example :
    Applied numerals 6 (answer_of revision_a revised) db_4 (state_of db_4 revised)
apply_revision-Applied_example =
    apply_revision-Applied numerals approver_user 6 none (answer_of revision_a revised) db_4
      (state_of db_4 revised) revised-ok

-- A save from the Desk of a new quantity, while the Deal is Proposed.
abbrev edited : Deal
edited = record deal_a { qty = units 50; container_lot = some 99 }

abbrev saved : Result (Deal × Db)
saved = save_deal no_flags edited (db_of deal_a)

saved-ok :
    save_deal no_flags edited (db_of deal_a)
    ≡ ok (answer_of deal_a saved, state_of (db_of deal_a) saved)
unfolding runs
saved-ok = refl

deal_found : find deal_key 5 (db_of deal_a).deals ≡ some deal_a
unfolding runs
deal_found = refl

save_deal-SaveKeeps_example : SaveKeeps no_flags deal_a (answer_of deal_a saved)
save_deal-SaveKeeps_example =
    save_deal-SaveKeeps no_flags deal_a edited (answer_of deal_a saved) (db_of deal_a)
      (state_of (db_of deal_a) saved) deal_found saved-ok

save_deal-HasLot_example : HasLot (db_of deal_a) 11 (answer_of deal_a saved)
save_deal-HasLot_example =
    save_deal-HasLot no_flags edited (answer_of deal_a saved) 11 (db_of deal_a)
      (state_of (db_of deal_a) saved) refl saved-ok

-- No Revision is named 100 or more.
other_name : (n : ℕ) → 100 ≤ n → (6 == n) ≡ false
other_name n h = ground arith

below_next : RevisionsBelow db_4
unfolding find
below_next n h = rw (other_name n h) refl

abbrev db_8 : Db
db_8 = state_of db_4 revised

-- The Deal is saved from the Desk, unchanged.
abbrev after_save : Result (Deal × Db)
after_save = save_deal no_flags (record approved_deal { customer = some 83 }) db_8

after_save-ok :
    save_deal no_flags (record approved_deal { customer = some 83 }) db_8
    ≡ ok (answer_of approved_deal after_save, state_of db_8 after_save)
unfolding runs
after_save-ok = refl

revised_found : find deal_key 5 db_8.deals ≡ some (answer_of approved_deal after_save)
unfolding runs
revised_found = refl

abbrev later_run : Reaches numerals db_8 (state_of db_8 after_save)
later_run = next here (
    by_desk (answer_of approved_deal after_save) (record approved_deal { customer = some 83 })
      (answer_of approved_deal after_save) revised_found after_save-ok)

applied_kept_example :
    find revision_key 6 (state_of db_8 after_save).revisions ≡ some (answer_of revision_a revised)
applied_kept_example =
    applied_kept db_4 approver_user 6 none (answer_of revision_a revised) below_next revised-ok
      later_run

applied_once_example : ¬ (
    apply_revision numerals approver_user 6 none (state_of db_8 after_save) ≡ ok (revision_a, db_4))
applied_once_example =
    applied_once db_4 approver_user approver_user 6 none none (answer_of revision_a revised)
      revision_a below_next revised-ok later_run

-- The applied Revision is saved as it is.
abbrev applied_revision : Revision
applied_revision = record revision_a { status = RevisionStatus.applied }

abbrev db_9 : Db
db_9 = record db_4 { revisions = applied_revision ∷ [] }

resaved-ok : save_revision false applied_revision db_9 ≡ ok (tt, db_9)
unfolding runs
resaved-ok = refl

applied_found : find revision_key 6 db_9.revisions ≡ some applied_revision
unfolding runs
applied_found = refl

save_revision-frozen_example : applied_revision ≡ applied_revision
save_revision-frozen_example =
    save_revision-frozen false applied_revision applied_revision db_9 db_9 applied_found refl
      resaved-ok

validate_idempotency_keys_iff_example :
    (validate_idempotency_keys db_4 (some deal_a) edited ≡ pass) ↔ (
      KeyFree none none (message_taken db_4 edited)
      × KeyFree (some 91) (some 91) (fingerprint_taken db_4 edited))
validate_idempotency_keys_iff_example = validate_idempotency_keys_iff db_4 deal_a edited

-- A Deal is entered, with 93 for a fingerprint.
abbrev entered : Result (Deal × Db)
entered = insert_deal (λ d. 93) (record deal_a { duplicate_fingerprint = none }) (db_of deal_a)

entered-ok :
    insert_deal (λ d. 93) (record deal_a { duplicate_fingerprint = none }) (db_of deal_a)
    ≡ ok (answer_of deal_a entered, state_of (db_of deal_a) entered)
unfolding runs
entered-ok = refl

insert_deal-Inserted_example :
    Inserted (answer_of deal_a entered) (db_of deal_a) (state_of (db_of deal_a) entered)
insert_deal-Inserted_example =
    insert_deal-Inserted (λ d. 93) (record deal_a { duplicate_fingerprint = none })
      (answer_of deal_a entered) (db_of deal_a) (state_of (db_of deal_a) entered) entered-ok
