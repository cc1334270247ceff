-- ===== src/Deals/Countering.antt =====
-- accept_counter of deals.py.
use fresko_universe.Access.{is_deal_owner_or_salesperson}
use fresko_universe.Ats.{assert_ats}
use fresko_universe.Data.{Deal, Approval, Session, is_status, DealStatus, Decision}
use fresko_universe.Db.{
  pass, throw_if, or_throw, M, ◌>>=◌, ◌>>◌, reads, check, approval_key, Db, ok, Error,
}
use fresko_universe.DealDoc.{save_deal}
use fresko_universe.Deals.Locking.{set_status_and_rate, locked_deal}
use fresko_universe.Exceptions.{maybe_open_buyer_unresolved, transition_rate_floor_breach, settled}
use fresko_universe.Prelude.{
  ℕ, Bool, true, false, ◌&&◌, not, Option, none, some, List, [], ◌∷◌, ◌==◌, if◌then◌else◌, Ref,
  is_set, or_else, find,
}
use fresko_universe.Prelude.Int.{ℤ}

abbrev pub is_counter : Decision → Bool
is_counter Decision.counter = true
is_counter _ = false

-- The last of the rows that pass the test.
unfoldable pub find_last : (Approval → Bool) → List Approval → Option Approval
find_last p [] = none
find_last p (a ∷ rest) = or_else (find_last p rest) (if p a then some a else none)

-- A COUNTER Approval with a rate.
unfoldable pub with_rate : Option Approval → Option Approval
with_rate none = none
with_rate (some a) = if is_counter a.decision && is_set a.decision_rate then some a else none

unfoldable pub approval_of_link : Ref → Db → Option Approval
approval_of_link none db = none
approval_of_link (some n) db = find approval_key n db.approvals

-- _load_counter_approval
unfoldable pub load_counter_approval : Deal → Db → Option Approval
load_counter_approval d db =
    or_else (with_rate (approval_of_link d.approval db))
      (with_rate (find_last (λ a. a.deal == d.name && is_counter a.decision) db.approvals))

-- _load_counter_decision_rate, on the Approval that was loaded
unfoldable pub counter_rate : Option Approval → Option ℤ
counter_rate none = none
counter_rate (some a) = a.decision_rate

unfoldable pub exception_of : Option Approval → Ref
exception_of none = none
exception_of (some a) = a.exception

unfoldable pub approve_at : ℤ → Deal → Deal
approve_at rate d = record d { approved_rate = some rate; status = DealStatus.approved }

-- accept_counter
unfoldable pub accept_counter : Session → Db → ℕ → M Deal
accept_counter s before n = do
  deal ← locked_deal before n (λ _. pass)
  check (throw_if (not (is_status deal.status DealStatus.countered)) Error.wrong_status)
  check (throw_if (not (is_deal_owner_or_salesperson deal s.user)) Error.not_owner)
  approval ← reads λ db. ok (load_counter_approval deal db)
  rate ← reads λ _. or_throw (counter_rate approval) Error.no_counter_rate
  reads (assert_ats deal.container deal.lot_no (some deal.name) deal.qty Error.exceeds_ats)
  maybe_open_buyer_unresolved (approve_at rate deal)
  transition_rate_floor_breach (approve_at rate deal) (exception_of approval) (settled deal rate)
  save_deal set_status_and_rate (approve_at rate deal)
