-- ===== src/Approvals/Outcome.antt =====
-- What a decision means: who may take it, and that an approval without override does not oversell.
use fresko_universe.Approvals.{
  is_override, insert_approval, is_invalid, name_of, approved_by, oversell_exception, approve_kind,
  decide_approve_at, decide_approve, rate_or, decide_branch, decide,
}
use fresko_universe.Ats.{available_to_sell}
use fresko_universe.Ats.Capacity.{available_to_sell-Fits, Fits}
use fresko_universe.Ats.Commit.{Fits-SameStock, Fits-save}
use fresko_universe.Data.{Deal, Session, is_status, DealStatus, Decision}
use fresko_universe.Db.{
  pass, throw_if, deal_key, throw_if-pass, after_bind, after_query, after_check, Db, ok, Error,
}
use fresko_universe.Db.Frame.{SameStock-trans, ended, SameStock}
use fresko_universe.Db.Relates.{Relates}
use fresko_universe.DealDoc.{save_deal}
use fresko_universe.DealDoc.Passed.{Validated-SameCore, save_deal-ok}
use fresko_universe.Deals.{set_status_and_rate, locked_deal}
use fresko_universe.Deals.Locked.{locked_deal-ok}
use fresko_universe.Deals.Untouched.{
  maybe_open_buyer_unresolved-SameStock, transition_rate_floor_breach-SameStock, untouched_rules,
}
use fresko_universe.Exceptions.{
  maybe_open_buyer_unresolved, get_open_rate_floor_breach, transition_rate_floor_breach, settled,
}
use fresko_universe.Policy.StatusPath.{is_status-eq}
use fresko_universe.Prelude.{
  ℕ, ◌≡◌, refl, subst, inl, Bool, true, false, ◌&&◌, ◌||◌, not, Option, none, some, arith, Ref,
  is_set, or_else, not-false, find, NamesDiffer,
}
use fresko_universe.Prelude.Int.{ltb_ℤ, ltb_ℤ-false, ℤ, pos}

oversell_exception-SameStock : (b : Bool) (d : Deal) → Relates SameStock (oversell_exception b d)
unfolding oversell_exception
oversell_exception-SameStock false d = search untouched_rules
oversell_exception-SameStock true d = search untouched_rules

insert_approval-SameStock :
    (s : Session) (d : Deal) (decision : Decision) (rate : Option ℤ) (reason : Ref)
    (oversell : Bool) (exception revision : Ref)
    → Relates SameStock (insert_approval s d decision rate reason oversell exception revision)
unfolding insert_approval
insert_approval-SameStock s d decision rate reason oversell exception revision =
    search untouched_rules depth 7

-- What the branch APPROVE leaves: the Deal approved at the rate, and nothing oversold.
pub record ApprovedWithin (d d' : Deal) (rate : ℤ) (db' : Db) : Type 0 where
  pub name : d'.name ≡ d.name
  pub approved : d'.status ≡ DealStatus.approved
  pub approved_rate : d'.approved_rate ≡ some rate
  pub not_oversold : Fits d'.container d'.lot_no none (pos 0) db'

approve_end :
    (d d' : Deal) (rate : ℤ) (n : ℕ) (db mid db' : Db)
    → NamesDiffer deal_key db.deals
    → Fits d.container d.lot_no (some d.name) d.qty db
    → SameStock db mid
    → save_deal set_status_and_rate (approved_by n rate d) mid ≡ ok (d', db')
    → ApprovedWithin d d' rate db'
unfolding approved_by
approve_end d d' rate n db mid db' nd fits same save =
    let new = approved_by n rate d in
    let core = Validated-SameCore (save_deal-ok set_status_and_rate new d' mid db' save).0 in
    record {
      name = core.name;
      approved = core.status;
      approved_rate = core.approved_rate;
      not_oversold =
          Fits-save set_status_and_rate new d' mid db' (rw same.deals nd) (inl refl)
            (Fits-SameStock same d.container d.lot_no (some d.name) d.qty fits) save;
    }

within_ats : (b : Bool) → throw_if (b && not false) Error.exceeds_ats ≡ pass → b ≡ false
within_ats b h = ground arith

decide_approve-ApprovedWithin :
    (s : Session) (d d' : Deal) (rate : ℤ) (reason breach : Ref) (db db' : Db)
    → NamesDiffer deal_key db.deals
    → decide_approve s d rate reason false breach db ≡ ok (d', db')
    → ApprovedWithin d d' rate db'
unfolding decide_approve decide_approve_at
decide_approve-ApprovedWithin s d d' rate reason breach db db' nd h =
    after_query (available_to_sell d.container d.lot_no (some d.name)) _ db db' d' h λ ats e0 h0.
      after_check (λ _. throw_if (ltb_ℤ ats d.qty && not false) Error.exceeds_ats) _ db db' d' h0
        λ e1 h1. after_bind (oversell_exception (ltb_ℤ ats d.qty) d) _ db db' d' h1 λ x m1 e2 h2.
          after_bind
            (insert_approval s d (approve_kind false) (some rate) reason false (or_else x breach)
              none)
            _ m1 db' d' h2
            λ a m2 e3 h3.
              after_bind (maybe_open_buyer_unresolved (approved_by a.name rate d)) _ m2 db' d' h3
                λ _ m3 e4 h4.
                  after_bind
                    (transition_rate_floor_breach (approved_by a.name rate d) a.exception
                      (settled d rate))
                    _ m3 db' d' h4
                    λ _ m4 e5 h5.
                      let s1 = ended _ db m1 x (oversell_exception-SameStock _ d) e2 in
                      let s2 = ended _ m1 m2 a (insert_approval-SameStock s d _ _ _ _ _ _) e3 in
                      let s3 = ended _ m2 m3 tt (maybe_open_buyer_unresolved-SameStock _) e4 in
                      let s4 = ended _ m3 m4 tt (transition_rate_floor_breach-SameStock _ _ _) e5 in
                      approve_end d d' rate a.name db m4 db' nd
                        (available_to_sell-Fits d.container d.lot_no (some d.name) d.qty ats db e0
                          (ltb_ℤ-false ats d.qty (within_ats (ltb_ℤ ats d.qty) e1)))
                        (SameStock-trans db m3 m4
                          (SameStock-trans db m2 m3 (SameStock-trans db m1 m2 s1 s2) s3) s4)
                        h5

-- What a decision means: the user is an approver or a System Manager; the Deal was in Approval
-- Required; an override of the available quantity, by the decision or by the argument, is a
-- System Manager's; and an approval without it does not oversell.
pub record Decided (s : Session) (n : ℕ) (decision : Decision) (rate : Option ℤ) (reason : Ref)
    (oversell : Bool) (d : Deal) (db db' : Db) : Type 0 where
  pub old : Deal
  pub found : find deal_key n db.deals ≡ some old
  pub was_waiting : old.status ≡ DealStatus.approval_required
  pub allowed : (s.approver || s.system_manager) ≡ true
  pub reasoned : is_set reason ≡ true
  pub override : (is_override decision || oversell) ≡ true → s.system_manager ≡ true
  pub within :
      decision ≡ Decision.approve
      → oversell ≡ false
      → ApprovedWithin old d (rate_or rate old.proposed_rate) db'

override_pass :
    (b c : Bool) → throw_if (b && not c) Error.oversell_restricted ≡ pass → b ≡ true → c ≡ true
override_pass b c h e = ground arith

-- Where decide succeeds (Deal names being distinct), the user is an approver or a System Manager,
-- a reason is given and the Deal was in Approval Required; an override of the available quantity
-- is a System Manager's; and APPROVE without it leaves the Deal Approved at the rate passed or
-- else the proposed one, and neither its lot nor its Container oversold.
pub decide-Decided :
    (s : Session) (before : Db) (n : ℕ) (decision : Decision) (rate : Option ℤ) (reason : Ref)
    (oversell : Bool) (d : Deal) (db db' : Db)
    → NamesDiffer deal_key db.deals
    → decide s before n decision rate reason oversell db ≡ ok (d, db')
    → Decided s n decision rate reason oversell d db db'
unfolding decide decide_branch
decide-Decided s before n decision rate reason oversell d db db' nd h =
    after_check (λ _. throw_if (is_invalid decision) Error.invalid_decision) _ db db' d h
      λ e0 h0.
        after_check (λ _. throw_if (not (is_set reason)) Error.reason_required) _ db db' d h0
          λ e1 h1.
            after_check
              (λ _. throw_if (not (s.approver || s.system_manager)) Error.permission_denied) _ db
              db' d h1
              λ e2 h2. after_bind (locked_deal before n (λ _. pass)) _ db db' d h2 λ old m0 e3 h3.
                after_check
                  (λ _.
                    throw_if (not (is_status old.status DealStatus.approval_required))
                      Error.wrong_status)
                  _ m0 db' d h3
                  λ e4 h4.
                    after_check
                      (λ _.
                        throw_if ((is_override decision || oversell) && not s.system_manager)
                          Error.oversell_restricted)
                      _ m0 db' d h4
                      λ e5 h5.
                        let (same0, found) = locked_deal-ok before db m0 n (λ _. pass) old e3 in
                        record {
                          old = old;
                          found = found;
                          was_waiting =
                              is_status-eq old.status DealStatus.approval_required
                                (not-false _ (throw_if-pass _ Error.wrong_status e4));
                          allowed = not-false _ (throw_if-pass _ Error.permission_denied e2);
                          reasoned = not-false _ (throw_if-pass _ Error.reason_required e1);
                          override =
                              override_pass (is_override decision || oversell) s.system_manager e5;
                          within = λ is plain.
                              decide_approve-ApprovedWithin s old d (rate_or rate old.proposed_rate)
                                reason (name_of (get_open_rate_floor_breach old m0)) m0 db'
                                (subst (λ (x : Db). NamesDiffer deal_key x.deals) same0 nd)
                                (approve_branch s old d decision rate reason oversell _ m0 db' is
                                  plain h5);
                        }
  where
    approve_branch :
        (s : Session) (old d : Deal) (decision : Decision) (rate : Option ℤ) (reason : Ref)
        (oversell : Bool) (breach : Ref) (m db' : Db)
        → decision ≡ Decision.approve
        → oversell ≡ false
        → decide_branch s old decision rate reason oversell breach m ≡ ok (d, db')
        → decide_approve s old (rate_or rate old.proposed_rate) reason false breach m ≡ ok (d, db')
    approve_branch s old d decision rate reason oversell breach m db' is plain h =
        rw (is, plain) at h
