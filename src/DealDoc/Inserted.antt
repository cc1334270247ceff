-- ===== src/DealDoc/Inserted.antt =====
-- What the insert of a Deal leaves.
use fresko_universe.Data.{Deal, no_flags, is_status, DealStatus}
use fresko_universe.Db.{
  pass, throw_if, deal_key, Result-cases, throw_if-pass, then_check-pass, Db, ok, Error,
}
use fresko_universe.DealDoc.{
  message_taken, fingerprint_taken, dispatch_unflagged, enforce_dispatched_qty_lock, compute_amount,
  validate, before_insert, insert_deal,
}
use fresko_universe.DealDoc.Kept.{validate-Validated}
use fresko_universe.DealDoc.Keys.{keys-pass}
use fresko_universe.DealDoc.Passed.{Validated-Passed, Validated-SameCore}
use fresko_universe.Prelude.{
  ℕ, ◌+◌, ◌≡◌, refl, ◌∙◌, subst, inl, inr, Bool, true, false, ◌&&◌, not, none, arith, is_set,
  not-false, Bool-cases, put,
}
use fresko_universe.Prelude.Int.{eqb_ℤ, eqb_ℤ-eq, pos}

-- The Deal is stored under the next name, Proposed and not dispatched, and no other Deal has its
-- message id or its fingerprint, if it has them.
pub record Inserted (d' : Deal) (db db' : Db) : Type 0 where
  pub name : d'.name ≡ db.next_name
  pub left : db' ≡ record db { deals = put deal_key d' db.deals; next_name = db.next_name + 1 }
  pub is_proposed : d'.status ≡ DealStatus.proposed
  pub undispatched : d'.dispatched_qty ≡ pos 0
  pub message : is_set d'.source_message_id ≡ true → message_taken db d' ≡ false
  pub fingerprint : is_set d'.duplicate_fingerprint ≡ true → fingerprint_taken db d' ≡ false

unflagged-pass :
    (d : Deal) → enforce_dispatched_qty_lock no_flags none d ≡ pass → d.dispatched_qty ≡ pos 0
unfolding enforce_dispatched_qty_lock dispatch_unflagged
unflagged-pass d h =
    let (h2, c) =
      then_check-pass _
        (throw_if (not (eqb_ℤ d.dispatched_qty (pos 0)) && not false) Error.dispatch_server_only)
        h in
    eqb_ℤ-eq d.dispatched_qty (pos 0)
      (not-false _ (without_flag _ (throw_if-pass _ Error.dispatch_server_only c)))
  where
    without_flag : (a : Bool) → (a && not false) ≡ false → a ≡ false
    without_flag a h = ground arith

new_row :
    (d d' : Deal) (db : Db)
    → d.status ≡ DealStatus.proposed
    → d.name ≡ db.next_name
    → validate db no_flags none d ≡ ok d'
    → Inserted d' db (record db { deals = put deal_key d' db.deals; next_name = db.next_name + 1 })
unfolding compute_amount message_taken fingerprint_taken
new_row d d' db proposed named h =
    let v = validate-Validated db no_flags none d d' h in
    let core = Validated-SameCore v in
    let p = Validated-Passed v in
    let keys = keys-pass db none v.before p.keys in
    subst
      (λ x.
        Inserted x db (record db { deals = put deal_key x db.deals; next_name = db.next_name + 1 }))
      v.stored
      (amount_kept v.before keys (v.same.name ∙ named) (v.same.status ∙ proposed)
        (unflagged-pass v.before p.dispatch))
  where
    amount_kept :
        (b : Deal)
        → (is_set b.source_message_id ≡ true → message_taken db b ≡ false)
          × (is_set b.duplicate_fingerprint ≡ true → fingerprint_taken db b ≡ false)
        → b.name ≡ db.next_name
        → b.status ≡ DealStatus.proposed
        → b.dispatched_qty ≡ pos 0
        → Inserted (compute_amount b) db (record db {
          deals = put deal_key (compute_amount b) db.deals;
          next_name = db.next_name + 1;
        })
    amount_kept b keys n s q = record {
      name = n;
      left = refl;
      is_proposed = s;
      undispatched = q;
      message = keys.0;
      fingerprint = keys.1;
    }

-- A Deal that is inserted, whatever it was filled in with, is stored under the next name, is
-- Proposed, has nothing dispatched, and shares its message id and its fingerprint, if it has
-- them, with no other Deal.
pub insert_deal-Inserted :
    (fingerprint : Deal → ℕ) (d d' : Deal) (db db' : Db)
    → insert_deal fingerprint d db ≡ ok (d', db')
    → Inserted d' db db'
unfolding insert_deal before_insert
insert_deal-Inserted fingerprint d d' db db' h =
    elim (Bool-cases (is_status d.status DealStatus.proposed)) [
      | inr e ↦ (let g = (rw (e, insert_deal) at h) in absurd (cc))
      | inl e ↦
          let new : Deal = record (before_insert fingerprint d) { name = db.next_name } in
          elim (Result-cases (validate db no_flags none new)) [
            | inr (x, failed) ↦ (let g = (rw (e, failed, insert_deal) at h) in absurd (cc))
            | inl (x, done) ↦
                let g = (rw (e, done, insert_deal) at h) in
                let is : x ≡ d' = cc in
                let left : record db {
                  deals = put deal_key x db.deals;
                  next_name = db.next_name + 1;
                }
                    ≡ db' =
                  cc in
                subst (λ y. Inserted y db db') is
                  (subst (Inserted x db) left (new_row new x db refl refl done))
          ]
    ]
