-- ===== src/Deals/Acceptance.antt =====
-- What accept_counter leaves: the counter rate of an Approval, and no oversold lot.
use fresko_universe.Access.{is_deal_owner_or_salesperson}
use fresko_universe.Ats.{assert_ats}
use fresko_universe.Ats.Capacity.{assert_ats-Fits, Fits}
use fresko_universe.Ats.Commit.{Fits-SameStock, Fits-save}
use fresko_universe.Data.{Deal, Approval, Session, is_status, DealStatus}
use fresko_universe.Db.{
  pass, throw_if, or_throw, ◌>>◌, reads, deal_key, throw_if-pass, or_throw-ok, after_bind,
  after_query, after_check, Db, ok, Error,
}
use fresko_universe.Db.Frame.{SameStock-trans, ended}
use fresko_universe.DealDoc.{save_deal}
use fresko_universe.DealDoc.Passed.{Validated-SameCore, save_deal-ok}
use fresko_universe.Deals.{
  load_counter_approval, counter_rate, exception_of, approve_at, accept_counter,
  set_status_and_rate, locked_deal,
}
use fresko_universe.Deals.Locked.{locked_deal-ok}
use fresko_universe.Deals.Offers.{load_counter_approval-Offer, Offer}
use fresko_universe.Deals.Untouched.{
  maybe_open_buyer_unresolved-SameStock, transition_rate_floor_breach-SameStock,
}
use fresko_universe.Exceptions.{maybe_open_buyer_unresolved, transition_rate_floor_breach, settled}
use fresko_universe.Policy.StatusPath.{is_status-eq}
use fresko_universe.Prelude.{
  ℕ, ◌≡◌, refl, sym, subst, inl, true, not, Option, none, some, Ref, not-false, find, NamesDiffer,
}
use fresko_universe.Prelude.Int.{ℤ, pos}

-- What an accepted counter means: the Deal was Countered, the user is its owner or its
-- salesperson, the approved rate is the one of a COUNTER Approval of the database, and now
-- neither the Deal's lot nor its Container is oversold.
pub record CounterAccepted (s : Session) (n : ℕ) (d : Deal) (db db' : Db) : Type 0 where
  pub old : Deal
  pub found : find deal_key n db.deals ≡ some old
  pub was_countered : old.status ≡ DealStatus.countered
  pub allowed : is_deal_owner_or_salesperson old s.user ≡ true
  pub rate : ℤ
  pub offer : Approval
  pub offered : load_counter_approval old db ≡ some offer
  pub is_offer : Offer old offer
  pub at_rate : offer.decision_rate ≡ some rate
  pub approved_rate : d.approved_rate ≡ some rate
  pub approved : d.status ≡ DealStatus.approved
  pub not_oversold : Fits d.container d.lot_no none (pos 0) db'

counter_rate-some :
    (o : Option Approval) (rate : ℤ)
    → counter_rate o ≡ some rate
    → (a : Approval) × (o ≡ some a) × (a.decision_rate ≡ some rate)
unfolding counter_rate
counter_rate-some none rate h = absurd (cc)
counter_rate-some (some a) rate h = (a, refl, h)

accepted_end :
    (s : Session) (n : ℕ) (d old : Deal) (rate : ℤ) (exception : Ref) (db m1 m2 db' : Db)
    → NamesDiffer deal_key db.deals
    → find deal_key n db.deals ≡ some old
    → old.status ≡ DealStatus.countered
    → is_deal_owner_or_salesperson old s.user ≡ true
    → counter_rate (load_counter_approval old db) ≡ some rate
    → assert_ats old.container old.lot_no (some old.name) old.qty Error.exceeds_ats db ≡ pass
    → maybe_open_buyer_unresolved (approve_at rate old) db ≡ ok (tt, m1)
    → transition_rate_floor_breach (approve_at rate old) exception (settled old rate) m1
      ≡ ok (tt, m2)
    → save_deal set_status_and_rate (approve_at rate old) m2 ≡ ok (d, db')
    → CounterAccepted s n d db db'
unfolding approve_at
accepted_end s n d old rate exception db m1 m2 db' nd found was allowed offered ats e1 e2 save =
    let new = approve_at rate old in
    let core = Validated-SameCore (save_deal-ok set_status_and_rate new d m2 db' save).0 in
    let same1 =
      ended (maybe_open_buyer_unresolved new) db m1 tt (maybe_open_buyer_unresolved-SameStock new)
        e1 in
    let same2 =
      ended (transition_rate_floor_breach new exception (settled old rate)) m1 m2 tt
        (transition_rate_floor_breach-SameStock new exception (settled old rate)) e2 in
    let same = SameStock-trans db m1 m2 same1 same2 in
    let o = counter_rate-some (load_counter_approval old db) rate offered in
    record {
      old = old;
      found = found;
      was_countered = was;
      allowed = allowed;
      rate = rate;
      offer = o.0;
      offered = o.1;
      is_offer = load_counter_approval-Offer old db o.0 o.1;
      at_rate = o.2;
      approved_rate = core.approved_rate;
      approved = core.status;
      not_oversold =
          Fits-save set_status_and_rate new d m2 db' (rw same.deals nd) (inl refl)
            (Fits-SameStock same old.container old.lot_no (some old.name) old.qty (
              assert_ats-Fits old.container old.lot_no (some old.name) old.qty Error.exceeds_ats db
                ats))
            save;
    }

-- Where accept_counter succeeds (Deal names being distinct), the Deal was Countered and the user
-- is its owner or its salesperson; it is now Approved, at the rate of a COUNTER Approval that the
-- Deal links to or that is of the Deal, and neither its lot nor its Container is oversold.
pub accept_counter-CounterAccepted :
    (s : Session) (before : Db) (n : ℕ) (d : Deal) (db db' : Db)
    → NamesDiffer deal_key db.deals
    → accept_counter s before n db ≡ ok (d, db')
    → CounterAccepted s n d db db'
unfolding accept_counter
accept_counter-CounterAccepted s before n d db db' nd h =
    after_bind (locked_deal before n (λ _. pass)) _ db db' d h λ old m0 e0 h0.
      after_check
        (λ _. throw_if (not (is_status old.status DealStatus.countered)) Error.wrong_status) _ m0
        db' d h0
        λ e1 h1.
          after_check
            (λ _. throw_if (not (is_deal_owner_or_salesperson old s.user)) Error.not_owner) _ m0 db'
            d h1
            λ e2 h2.
              after_query
                (λ _. or_throw (counter_rate (load_counter_approval old m0)) Error.no_counter_rate)
                (λ rate. do
                  reads (
                      assert_ats old.container old.lot_no (some old.name) old.qty Error.exceeds_ats)
                  maybe_open_buyer_unresolved (approve_at rate old)
                  transition_rate_floor_breach (approve_at rate old)
                      (exception_of (load_counter_approval old m0)) (settled old rate)
                  save_deal set_status_and_rate (approve_at rate old))
                m0 db' d h2
                λ rate e4 h4.
                  after_check
                    (assert_ats old.container old.lot_no (some old.name) old.qty Error.exceeds_ats)
                    _ m0 db' d h4
                    λ e5 h5.
                      after_bind (maybe_open_buyer_unresolved (approve_at rate old)) _ m0 db' d h5
                        λ _ m1 e6 h6.
                          after_bind
                            (transition_rate_floor_breach (approve_at rate old)
                              (exception_of (load_counter_approval old m0)) (settled old rate))
                            _ m1 db' d h6
                            λ _ m2 e7 h7.
                              let (same0, found) =
                                locked_deal-ok before db m0 n (λ _. pass) old e0 in
                              subst (λ (x : Db). CounterAccepted s n d x db') (sym same0)
                                (accepted_end s n d old rate
                                  (exception_of (load_counter_approval old m0)) m0 m1 m2 db'
                                  (subst (λ (x : Db). NamesDiffer deal_key x.deals) same0 nd)
                                  (subst (λ (x : Db). find deal_key n x.deals ≡ some old) same0
                                    found)
                                  (is_status-eq old.status DealStatus.countered
                                    (not-false _ (throw_if-pass _ Error.wrong_status e1)))
                                  (not-false _ (throw_if-pass _ Error.not_owner e2))
                                  (or_throw-ok (counter_rate (load_counter_approval old m0))
                                    Error.no_counter_rate rate e4)
                                  e5 e6 e7 h7)
