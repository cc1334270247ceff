-- ===== src/DealDoc/Frozen.antt =====
-- What a save cannot change: status, dispatched quantity and locked fields have one way in each.
use fresko_universe.Data.{Deal, Flags, is_status}
use fresko_universe.Db.{pass, throw_if, deal_key, throw_if-pass, then_check-pass, Db, ok, Error}
use fresko_universe.DealDoc.{
  validate_buyer_alias, validate_status_transition, rate_differs, commercial_change,
  enforce_commercial_lock, dispatch_unflagged, enforce_dispatched_qty_lock, compute_amount,
  save_deal,
}
use fresko_universe.DealDoc.Passed.{Validated-Passed, save_deal-ok, Passed}
use fresko_universe.Policy.{may_follow, commercially_locked}
use fresko_universe.Policy.StatusPath.{is_status-eq}
use fresko_universe.Prelude.{
  ◌≡◌, refl, ap, subst, ◌⊎◌, inl, inr, Bool, true, false, ◌&&◌, ◌||◌, not, Option, none, some,
  arith, ◌==◌, Ref, ◌=?◌, ==-eq, not-false, =?-eq, Bool-cases, find,
}
use fresko_universe.Prelude.Int.{◌≤ℤ◌, ltb_ℤ, eqb_ℤ, eqb_ℤ-eq, ltb_ℤ-false, ℤ, pos}

transition-pass :
    (flags : Flags) (old d : Deal)
    → validate_status_transition flags (some old) d ≡ pass
    → (old.status ≡ d.status)
      ⊎ ((flags.allow_status_transition ≡ true) × (may_follow old.status d.status ≡ true))
unfolding validate_status_transition
transition-pass flags old d h = elim (Bool-cases (is_status old.status d.status)) [
  | inl e ↦ inl (is_status-eq old.status d.status e)
  | inr e ↦
      let g = (rw (e, validate_status_transition) at h) in
      let (a, b) =
        then_check-pass (throw_if (not flags.allow_status_transition) Error.desk_transition) _ g in
      inr (
        not-false flags.allow_status_transition (throw_if-pass _ Error.desk_transition a),
        not-false (may_follow old.status d.status) (throw_if-pass _ Error.invalid_transition b),
      )
]

and-not-false : (a b : Bool) → (a && not b) ≡ false → b ≡ false → a ≡ false
and-not-false a b h e = ground arith

-- The checks of the approved rate and of the locked fields.
lock-pass :
    (flags : Flags) (old d : Deal)
    → enforce_commercial_lock flags (some old) d ≡ pass
    → (flags.allow_approval_write ≡ false → rate_differs d.approved_rate old.approved_rate ≡ false)
      × (commercially_locked old.status ≡ true
          → flags.allow_commercial_revision ≡ false
          → commercial_change old d ≡ false)
unfolding enforce_commercial_lock
lock-pass flags old d h =
    let (a, b) =
      then_check-pass
        (throw_if (rate_differs d.approved_rate old.approved_rate && not flags.allow_approval_write)
          Error.approved_rate_locked)
        _ h in
    (
      λ e.
          and-not-false (rate_differs d.approved_rate old.approved_rate) flags.allow_approval_write
            (throw_if-pass _ Error.approved_rate_locked a) e,
      λ l e.
          and-not-false (commercial_change old d) flags.allow_commercial_revision
            (throw_if-pass _ Error.commercially_frozen (rw l at b)) e,
    )

dispatch-pass :
    (flags : Flags) (old : Option Deal) (d : Deal)
    → enforce_dispatched_qty_lock flags old d ≡ pass
    → (pos 0 ≤ℤ d.dispatched_qty)
      × (d.dispatched_qty ≤ℤ d.qty)
      × (flags.allow_dispatch_write ≡ false → dispatch_unflagged old d ≡ false)
unfolding enforce_dispatched_qty_lock
dispatch-pass flags old d h =
    let (g, c) =
      then_check-pass _
        (throw_if (dispatch_unflagged old d && not flags.allow_dispatch_write)
          Error.dispatch_server_only)
        h in
    let (a, b) =
      then_check-pass (throw_if (ltb_ℤ d.dispatched_qty (pos 0)) Error.negative_dispatch) _ g in
    (
      ltb_ℤ-false d.dispatched_qty (pos 0) (throw_if-pass _ Error.negative_dispatch a),
      ltb_ℤ-false d.qty d.dispatched_qty (throw_if-pass _ Error.dispatch_exceeds_qty b),
      λ e.
          and-not-false (dispatch_unflagged old d) flags.allow_dispatch_write
            (throw_if-pass _ Error.dispatch_server_only c) e,
    )

rate_differs-false : (a b : Option ℤ) → rate_differs a b ≡ false → a ≡ b
unfolding rate_differs
rate_differs-false none none h = refl
rate_differs-false none (some b) h = cc
rate_differs-false (some a) none h = cc
rate_differs-false (some a) (some b) h = ap some (eqb_ℤ-eq a b (not-false (eqb_ℤ a b) h))

-- No field of LOCKED_COMMERCIAL_FIELDS but approved_rate differs.
pub record SameCommercial (a b : Deal) : Type 0 where
  pub container : b.container ≡ a.container
  pub buyer_alias : b.buyer_alias ≡ a.buyer_alias
  pub item : b.item ≡ a.item
  pub lot_no : b.lot_no ≡ a.lot_no
  pub container_lot : b.container_lot ≡ a.container_lot
  pub qty : b.qty ≡ a.qty
  pub proposed_rate : b.proposed_rate ≡ a.proposed_rate
  pub uom : b.uom ≡ a.uom
  pub company : b.company ≡ a.company
  pub customer : b.customer ≡ a.customer
  pub count_size : b.count_size ≡ a.count_size
  pub salesperson_user : b.salesperson_user ≡ a.salesperson_user

or-false : (a b : Bool) → (a || b) ≡ false → (a ≡ false) × (b ≡ false)
or-false a b h = ground arith

unchanged : (a b : Ref) → not (a =? b) ≡ false → a ≡ b
unchanged a b h = =?-eq a b (not-false (a =? b) h)

commercial_change-false : (a b : Deal) → commercial_change a b ≡ false → SameCommercial a b
unfolding commercial_change
commercial_change-false a b h =
    let (h, e12) = or-false _ (not (b.salesperson_user =? a.salesperson_user)) h in
    let (h, e11) = or-false _ (not (b.count_size =? a.count_size)) h in
    let (h, e10) = or-false _ (not (b.customer =? a.customer)) h in
    let (h, e9) = or-false _ (not (b.company =? a.company)) h in
    let (h, e8) = or-false _ (not (b.uom =? a.uom)) h in
    let (h, e7) = or-false _ (not (eqb_ℤ b.proposed_rate a.proposed_rate)) h in
    let (h, e6) = or-false _ (not (eqb_ℤ b.qty a.qty)) h in
    let (h, e5) = or-false _ (not (b.container_lot =? a.container_lot)) h in
    let (h, e4) = or-false _ (not (b.lot_no =? a.lot_no)) h in
    let (h, e3) = or-false _ (not (b.item =? a.item)) h in
    let (e1, e2) =
      or-false (not (b.container == a.container)) (not (b.buyer_alias =? a.buyer_alias)) h in
    record {
      container = ==-eq b.container a.container (not-false _ e1);
      buyer_alias = unchanged b.buyer_alias a.buyer_alias e2;
      item = unchanged b.item a.item e3;
      lot_no = unchanged b.lot_no a.lot_no e4;
      container_lot = unchanged b.container_lot a.container_lot e5;
      qty = eqb_ℤ-eq b.qty a.qty (not-false _ e6);
      proposed_rate = eqb_ℤ-eq b.proposed_rate a.proposed_rate (not-false _ e7);
      uom = unchanged b.uom a.uom e8;
      company = unchanged b.company a.company e9;
      customer = unchanged b.customer a.customer e10;
      count_size = unchanged b.count_size a.count_size e11;
      salesperson_user = unchanged b.salesperson_user a.salesperson_user e12;
    }

-- What a save of the Deal `old` as `d'` leaves alone, for want of a flag.
pub record SaveKeeps (flags : Flags) (old d' : Deal) : Type 0 where
  pub status :
      (old.status ≡ d'.status)
      ⊎ ((flags.allow_status_transition ≡ true) × (may_follow old.status d'.status ≡ true))
  pub buyer_alias : d'.buyer_alias ≡ old.buyer_alias
  pub approved_rate : flags.allow_approval_write ≡ false → d'.approved_rate ≡ old.approved_rate
  pub commercial :
      commercially_locked old.status ≡ true
      → flags.allow_commercial_revision ≡ false
      → SameCommercial old d'
  pub nonneg : pos 0 ≤ℤ d'.dispatched_qty
  pub bounded : d'.dispatched_qty ≤ℤ d'.qty
  pub dispatched : flags.allow_dispatch_write ≡ false → d'.dispatched_qty ≡ old.dispatched_qty

alias-pass :
    (old d : Deal) → validate_buyer_alias (some old) d ≡ pass → d.buyer_alias ≡ old.buyer_alias
unfolding validate_buyer_alias
alias-pass old d h =
    let (same, set) =
      then_check-pass (throw_if (not (d.buyer_alias =? old.buyer_alias)) Error.alias_changed) _ h in
    =?-eq d.buyer_alias old.buyer_alias (not-false _ (throw_if-pass _ Error.alias_changed same))

before-SaveKeeps :
    (db : Db) (flags : Flags) (old d : Deal) → Passed db flags (some old) d → SaveKeeps flags old d
unfolding dispatch_unflagged
before-SaveKeeps db flags old d p =
    let (a, b) = lock-pass flags old d p.lock in
    let (l, u, w) = dispatch-pass flags (some old) d p.dispatch in
    record {
      status = transition-pass flags old d p.transition;
      buyer_alias = alias-pass old d p.alias;
      approved_rate = λ e. rate_differs-false d.approved_rate old.approved_rate (a e);
      commercial = λ l e. commercial_change-false old d (b l e);
      nonneg = l;
      bounded = u;
      dispatched = λ e. eqb_ℤ-eq d.dispatched_qty old.dispatched_qty (not-false _ (w e));
    }

compute_amount-SaveKeeps :
    (flags : Flags) (old d : Deal) → SaveKeeps flags old d → SaveKeeps flags old (compute_amount d)
unfolding compute_amount
compute_amount-SaveKeeps flags old d k = record {
  status = k.status;
  buyer_alias = k.buyer_alias;
  approved_rate = k.approved_rate;
  commercial = λ l e. let c = k.commercial l e in ground arith;
  nonneg = k.nonneg;
  bounded = k.bounded;
  dispatched = k.dispatched;
}

-- A save of a stored Deal that succeeds moves the status only along DEAL_TRANSITIONS and only
-- with the flag; keeps the buyer alias; keeps the dispatched quantity between zero and the
-- quantity, and as it was without its flag; keeps the approved rate without its flag; and keeps
-- every locked commercial field of a Deal that has left Proposed, unless it is flagged as a
-- revision.
pub save_deal-SaveKeeps :
    (flags : Flags) (old d d' : Deal) (db db' : Db)
    → find deal_key d.name db.deals ≡ some old
    → save_deal flags d db ≡ ok (d', db')
    → SaveKeeps flags old d'
save_deal-SaveKeeps flags old d d' db db' f h =
    let v = (save_deal-ok flags d d' db db' h).0 in
    subst (SaveKeeps flags old) v.stored (
      compute_amount-SaveKeeps flags old v.before (
        before-SaveKeeps db flags old v.before
          (subst (λ o. Passed db flags o v.before) f (Validated-Passed v))))
