-- ===== src/Deals/Dispatch.antt =====
-- record_dispatch: what a recorded quantity satisfies, and that a replay changes nothing.
use fresko_universe.Access.{assert_can_record_dispatch}
use fresko_universe.Data.{Deal, Lot, Session, is_status, DealStatus}
use fresko_universe.Db.{
  throw_if-pass, then_check-pass, check-ok, after_bind, after_check, pass, throw_if, ◌>>◌, pure,
  reads, deal_key, Db, ok, Error,
}
use fresko_universe.DealDoc.{save_deal}
use fresko_universe.DealDoc.Passed.{Validated-SameCore, save_deal-ok}
use fresko_universe.Deals.{
  locked_deal, other_dispatched, lot_ceiling, lot_of_deal, dispatch_checks, set_dispatched,
  dispatch_to, record_dispatch_locked, record_dispatch,
}
use fresko_universe.Deals.Locked.{locked_deal-ok}
use fresko_universe.Prelude.{
  ℕ, ◌≡◌, refl, sym, ap, ◌∙◌, subst, ◌⊎◌, inl, inr, Bool, true, ◌&&◌, ◌||◌, not, Option, none, some,
  List, arith, ==-refl, not-false, Bool-cases, find, put, find-put, find-key,
}
use fresko_universe.Prelude.Int.{◌+ℤ◌, ◌≤ℤ◌, ltb_ℤ, eqb_ℤ, eqb_ℤ-eq, ltb_ℤ-false, ℤ, pos}

-- A new quantity was written.
pub record Recorded (old d : Deal) (qty : ℤ) (db : Db) : Type 0 where
  pub waited :
      (is_status old.status DealStatus.outward_pending
        || is_status old.status DealStatus.partially_dispatched)
      ≡ true
  pub not_less : old.dispatched_qty ≤ℤ qty
  pub at_most : qty ≤ℤ old.qty
  pub in_lot :
      (l : Lot)
      → lot_of_deal old db ≡ some l
      → other_dispatched old.container old.lot_no old.name db.deals +ℤ qty ≤ℤ l.inward_qty
  pub status : d.status ≡ (dispatch_to qty old).status

-- What a recorded dispatch means: the Deal holds the quantity and is stored so; either nothing was written and it
-- held it before, or it waited for dispatch, the quantity has not fallen, is at most the
-- Deal's, and with what the other Deals of the lot have dispatched at most the lot's inward one.
pub record Dispatched (n : ℕ) (qty : ℤ) (d : Deal) (db db' : Db) : Type 0 where
  pub old : Deal
  pub found : find deal_key n db.deals ≡ some old
  pub nonneg : pos 0 ≤ℤ qty
  pub held : d.dispatched_qty ≡ qty
  pub stored : find deal_key n db'.deals ≡ some d
  pub change : ((d ≡ old) × (db' ≡ db)) ⊎ Recorded old d qty db

lot_ceiling-pass :
    (o : Option Lot) (others qty : ℤ)
    → lot_ceiling o others qty ≡ pass
    → (l : Lot) → o ≡ some l
    → others +ℤ qty ≤ℤ l.inward_qty
unfolding lot_ceiling
lot_ceiling-pass none others qty h l e = absurd (cc)
lot_ceiling-pass (some x) others qty h l e =
    let q : x ≡ l = cc in
    subst (λ (y : Lot). others +ℤ qty ≤ℤ y.inward_qty) q
      (ltb_ℤ-false x.inward_qty (others +ℤ qty) (throw_if-pass _ Error.physical_ceiling h))

pub dispatch_checks-Recorded :
    (old d : Deal) (qty : ℤ) (db : Db)
    → dispatch_checks old qty db ≡ pass
    → d.status ≡ (dispatch_to qty old).status
    → Recorded old d qty db
unfolding dispatch_checks
dispatch_checks-Recorded old d qty db h st =
    let (h2, lot) = then_check-pass _ (lot_ceiling (lot_of_deal old db) _ qty) h in
    let (h1, at_most) =
      then_check-pass _ (throw_if (ltb_ℤ old.qty qty) Error.exceeds_deal_qty) h2 in
    let (waited, not_less) =
      then_check-pass
        (throw_if
          (not (
            is_status old.status DealStatus.outward_pending
            || is_status old.status DealStatus.partially_dispatched))
          Error.wrong_status)
        _ h1 in
    record {
      waited = not-false _ (throw_if-pass _ Error.wrong_status waited);
      not_less =
          ltb_ℤ-false qty old.dispatched_qty (throw_if-pass _ Error.dispatch_decreases not_less);
      at_most = ltb_ℤ-false old.qty qty (throw_if-pass _ Error.exceeds_deal_qty at_most);
      in_lot = lot_ceiling-pass (lot_of_deal old db) _ qty lot;
      status = st;
    }

-- The row of a name is what was last put under it.
find_saved :
    (n : ℕ) (d : Deal) (rows : List Deal)
    → d.name ≡ n
    → find deal_key n (put deal_key d rows) ≡ some d
find_saved n d rows e =
    subst (λ m. find deal_key m (put deal_key d rows) ≡ some d) e (rw find-put (rw ==-refl refl))

new_quantity :
    (old d : Deal) (qty : ℤ) (db db' : Db)
    → (reads (dispatch_checks old qty) >> save_deal set_dispatched (dispatch_to qty old)) db
      ≡ ok (d, db')
    → (d.dispatched_qty ≡ qty) × (find deal_key old.name db'.deals ≡ some d) × Recorded old d qty db
unfolding dispatch_to
new_quantity old d qty db db' h =
    let (checks, save) = check-ok (dispatch_checks old qty) _ db db' d h in
    let (valid, written) = save_deal-ok set_dispatched (dispatch_to qty old) d db db' save in
    let core = Validated-SameCore valid in
    (
      core.dispatched_qty,
      subst (λ (x : Db). find deal_key old.name x.deals ≡ some d) written
          (find_saved old.name d db.deals core.name),
      dispatch_checks-Recorded old d qty db checks core.status,
    )

-- A replay of the quantity that the Deal holds.
replayed :
    (old d : Deal) (qty : ℤ) (db db' : Db)
    → eqb_ℤ qty old.dispatched_qty ≡ true
    → pure old db ≡ ok (d, db')
    → (d.dispatched_qty ≡ qty) × (d ≡ old) × (db' ≡ db)
replayed old d qty db db' e h =
    let p : old ≡ d = cc in
    let q = eqb_ℤ-eq qty old.dispatched_qty e in
    (ap (λ (x : Deal). x.dispatched_qty) (sym p) ∙ sym q, sym p, (cc))

locked-Dispatched :
    (old d : Deal) (qty : ℤ) (db db' : Db)
    → find deal_key old.name db.deals ≡ some old
    → record_dispatch_locked old qty db ≡ ok (d, db')
    → (d.dispatched_qty ≡ qty)
      × (find deal_key old.name db'.deals ≡ some d)
      × (((d ≡ old) × (db' ≡ db)) ⊎ Recorded old d qty db)
unfolding record_dispatch_locked
locked-Dispatched old d qty db db' found h =
    elim (Bool-cases (is_status old.status DealStatus.dispatched)) [
      | inl e ↦ elim (Bool-cases (eqb_ℤ qty old.dispatched_qty)) [
        | inl q ↦
            let (a, b, c) = replayed old d qty db db' q (rw (e, q, record_dispatch_locked) at h) in
            (a, as_found b c, inl (b, c))
        | inr q ↦ (let g = (rw (e, q, record_dispatch_locked) at h) in absurd (cc))
      ]
      | inr e ↦
          elim (Bool-cases (
            (is_status old.status DealStatus.outward_pending
              || is_status old.status DealStatus.partially_dispatched)
            && eqb_ℤ qty old.dispatched_qty)) [
              | inl q ↦
                  let (a, b, c) =
                    replayed old d qty db db' (and-right _ (eqb_ℤ qty old.dispatched_qty) q)
                      (rw (e, q, record_dispatch_locked) at h) in
                  (a, as_found b c, inl (b, c))
              | inr q ↦
                  let (a, stored, b) =
                    new_quantity old d qty db db' (rw (e, q, record_dispatch_locked) at h) in
                  (a, stored, inr b)
            ]
    ]
  where
    and-right : (a b : Bool) → (a && b) ≡ true → b ≡ true
    and-right a b h = ground arith

    as_found : d ≡ old → db' ≡ db → find deal_key old.name db'.deals ≡ some d
    as_found b c = rw (b, c) found

-- Where record_dispatch succeeds, the Deal holds the quantity passed, which is not negative, and
-- is the row stored under its name. Either it held it before and nothing is written; or it waited
-- for dispatch, the quantity has not fallen, is at most the Deal's, and together with what the
-- other Deals of the lot have dispatched is at most the lot's inward quantity.
pub record_dispatch-Dispatched :
    (s : Session) (before : Db) (n : ℕ) (qty : ℤ) (d : Deal) (db db' : Db)
    → record_dispatch s before n qty db ≡ ok (d, db')
    → Dispatched n qty d db db'
unfolding record_dispatch
record_dispatch-Dispatched s before n qty d db db' h =
    after_bind (locked_deal before n (λ _. assert_can_record_dispatch s)) _ db db' d h
      λ old m0 e0 h0.
        after_check (λ _. throw_if (ltb_ℤ qty (pos 0)) Error.negative_dispatch) _ m0 db' d h0
          λ e1 h1.
            let (same0, found) =
              locked_deal-ok before db m0 n (λ _. assert_can_record_dispatch s) old e0 in
            let named = find-key deal_key n db.deals old found in
            let (held, stored, change) =
              locked-Dispatched old d qty m0 db'
                (subst (λ (x : Db). find deal_key old.name x.deals ≡ some old) same0
                  (subst (λ m. find deal_key m db.deals ≡ some old) (sym named) found))
                h1 in
            record {
              old = old;
              found = found;
              nonneg = ltb_ℤ-false qty (pos 0) (throw_if-pass _ Error.negative_dispatch e1);
              held = held;
              stored = subst (λ m. find deal_key m db'.deals ≡ some d) named stored;
              change =
                  subst (λ (x : Db). ((d ≡ old) × (db' ≡ x)) ⊎ Recorded old d qty x) (sym same0)
                    change;
            }
