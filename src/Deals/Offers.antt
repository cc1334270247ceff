-- ===== src/Deals/Offers.antt =====
-- The Approval that an accepted counter goes by.
use fresko_universe.Data.{Deal, Approval, Decision}
use fresko_universe.Db.{approval_key, Db}
use fresko_universe.Deals.{
  is_counter, find_last, with_rate, approval_of_link, load_counter_approval,
}
use fresko_universe.Prelude.{
  ◌≡◌, sym, ap, subst, ◌⊎◌, inl, inr, Bool, true, ◌&&◌, Option, none, some, List, [], ◌∷◌, arith,
  ◌==◌, Ref, is_set, ==-eq, Bool-cases, Option-cases, find-key,
}

-- A COUNTER Approval with a rate, which the Deal links to or which is of the Deal.
pub record Offer (d : Deal) (a : Approval) : Type 0 where
  pub counter : a.decision ≡ Decision.counter
  pub rate : is_set a.decision_rate ≡ true
  pub of_deal : (d.approval ≡ some a.name) ⊎ (a.deal ≡ d.name)

is_counter-eq : (x : Decision) → is_counter x ≡ true → x ≡ Decision.counter
is_counter-eq x h = ground arith

and-true : (a b : Bool) → (a && b) ≡ true → (a ≡ true) × (b ≡ true)
and-true a b h = ground arith

with_rate-some :
    (o : Option Approval) (a : Approval)
    → with_rate o ≡ some a
    → (o ≡ some a) × (a.decision ≡ Decision.counter) × (is_set a.decision_rate ≡ true)
unfolding with_rate
with_rate-some none a h = absurd (cc)
with_rate-some (some x) a h = elim (Bool-cases (is_counter x.decision && is_set x.decision_rate)) [
  | inr e ↦ (let g = (rw (e, with_rate) at h) in absurd (cc))
  | inl e ↦
      let g = (rw (e, with_rate) at h) in
      let is : x ≡ a = cc in
      let (c, r) = and-true _ _ e in
      (ap some is, rw (← is) (is_counter-eq x.decision c), rw (← is) r)
]

find_last-holds :
    (p : Approval → Bool) (rows : List Approval) (a : Approval)
    → find_last p rows ≡ some a
    → p a ≡ true
unfolding find_last
find_last-holds p [] a h = absurd (cc)
find_last-holds p (x ∷ xs) a h = elim (Option-cases (find_last p xs)) [
  | inr (b, e) ↦
      let g = (rw (e, find_last) at h) in
      let is : b ≡ a = cc in rw (← is) (find_last-holds p xs b e)
  | inl e ↦ elim (Bool-cases (p x)) [
    | inl q ↦ let g = (rw (e, q, find_last) at h) in let is : x ≡ a = cc in rw (← is) q
    | inr q ↦ (let g = (rw (e, q, find_last) at h) in absurd (cc))
  ]
]

linked : (o : Ref) (db : Db) (a : Approval) → approval_of_link o db ≡ some a → o ≡ some a.name
unfolding approval_of_link
linked none db a h = absurd (cc)
linked (some n) db a h = ap some (sym (find-key approval_key n db.approvals a h))

-- The Approval that _load_counter_approval finds is a COUNTER with a rate, and it is the one that
-- the Deal links to or one of the Deal.
pub load_counter_approval-Offer :
    (d : Deal) (db : Db) (a : Approval) → load_counter_approval d db ≡ some a → Offer d a
unfolding load_counter_approval
load_counter_approval-Offer d db a h =
    elim (Option-cases (with_rate (approval_of_link d.approval db))) [
      | inr (b, e) ↦
          let g = (rw (e, load_counter_approval) at h) in
          let is : b ≡ a = cc in
          let (found, c, r) = with_rate-some _ b e in
          subst (Offer d) is
            (record { counter = c; rate = r; of_deal = inl (linked d.approval db b found) })
      | inl e ↦
          let g = (rw (e, load_counter_approval) at h) in
          let (found, c, r) = with_rate-some _ a g in
          let holds = find_last-holds _ db.approvals a found in
          record {
            counter = c;
            rate = r;
            of_deal =
                inr (
                  ==-eq a.deal d.name
                    (and-true (a.deal == d.name) (is_counter a.decision) holds).0);
          }
    ]
