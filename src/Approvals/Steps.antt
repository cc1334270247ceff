-- ===== src/Approvals/Steps.antt =====
-- A decision keeps a relation that saves and single writes keep.
use fresko_universe.Approvals.{
  insert_approval, oversell_exception, decide_approve_at, decide_approve, without_rate,
  decide_counter, decide_reject, rate_or, decide_branch, decide,
}
use fresko_universe.Data.{Deal, Session, Decision}
use fresko_universe.Db.{Db}
use fresko_universe.Db.Relates.{Relates}
use fresko_universe.DealDoc.Closed.{Closed}
use fresko_universe.DealDoc.Evolves.{SameTrack}
use fresko_universe.Deals.Steps.{deal_rules}
use fresko_universe.Prelude.{ℕ, refl, Bool, true, false, Option, Ref}
use fresko_universe.Prelude.Int.{ℤ}

module _ {R : Db → Db → Type 0} (c : Closed R) where
  pub insert_approval-Relates :
      (s : Session) (d : Deal) (decision : Decision) (rate : Option ℤ) (reason : Ref)
      (oversell : Bool) (exception revision : Ref)
      → Relates R (insert_approval s d decision rate reason oversell exception revision)
  unfolding insert_approval
  insert_approval-Relates s d decision rate reason oversell exception revision =
      search deal_rules depth 7

  oversell_exception-Relates : (b : Bool) (d : Deal) → Relates R (oversell_exception b d)
  unfolding oversell_exception
  oversell_exception-Relates false d = search deal_rules
  oversell_exception-Relates true d = search deal_rules

ruleset decide_rules = (deal_rules, insert_approval-Relates, oversell_exception-Relates)

without_rate-SameTrack : (d : Deal) → SameTrack d (without_rate d)
unfolding without_rate
without_rate-SameTrack d = record {
  message = refl;
  fingerprint = refl;
  name = refl;
  status = refl;
  alias = refl;
  qty = refl;
  dispatched = refl;
}

module _ {R : Db → Db → Type 0} (c : Closed R) where
  decide_approve_at-Relates :
      (s : Session) (d : Deal) (rate : ℤ) (reason : Ref) (oversell : Bool) (breach : Ref) (ats : ℤ)
      → Relates R (decide_approve_at s d rate reason oversell breach ats)
  unfolding decide_approve_at
  decide_approve_at-Relates s d rate reason oversell breach ats = search decide_rules depth 9

  decide_approve-Relates :
      (s : Session) (d : Deal) (rate : ℤ) (reason : Ref) (oversell : Bool) (breach : Ref)
      → Relates R (decide_approve s d rate reason oversell breach)
  unfolding decide_approve
  decide_approve-Relates s d rate reason oversell breach =
      search (decide_rules, decide_approve_at-Relates)

  decide_counter-Relates :
      (s : Session) (d : Deal) (rate : Option ℤ) (reason breach : Ref)
      → Relates R (decide_counter s d rate reason breach)
  unfolding decide_counter
  decide_counter-Relates s d rate reason breach =
      search (decide_rules, c.deal_rewritten, without_rate-SameTrack) depth 8

  decide_reject-Relates :
      (s : Session) (d : Deal) (rate : Option ℤ) (reason breach : Ref)
      → Relates R (decide_reject s d rate reason breach)
  unfolding decide_reject
  decide_reject-Relates s d rate reason breach = search decide_rules depth 7

  decide_branch-Relates :
      (s : Session) (d : Deal) (decision : Decision) (rate : Option ℤ) (reason : Ref)
      (oversell : Bool) (breach : Ref)
      → Relates R (decide_branch s d decision rate reason oversell breach)
  unfolding decide_branch
  decide_branch-Relates s d Decision.approve rate reason oversell breach =
      decide_approve-Relates s d (rate_or rate d.proposed_rate) reason oversell breach
  decide_branch-Relates s d Decision.oversell_override rate reason oversell breach =
      decide_approve-Relates s d (rate_or rate d.proposed_rate) reason true breach
  decide_branch-Relates s d Decision.counter rate reason oversell breach =
      decide_counter-Relates s d rate reason breach
  decide_branch-Relates s d Decision.reject rate reason oversell breach =
      decide_reject-Relates s d rate reason breach
  decide_branch-Relates s d Decision.invalid rate reason oversell breach = search decide_rules

  pub decide-Relates :
      (s : Session) (before : Db) (n : ℕ) (decision : Decision) (rate : Option ℤ) (reason : Ref)
      (oversell : Bool)
      → Relates R (decide s before n decision rate reason oversell)
  unfolding decide
  decide-Relates s before n decision rate reason oversell =
      search (decide_rules, decide_branch-Relates) depth 10
