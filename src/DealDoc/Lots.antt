-- ===== src/DealDoc/Lots.antt =====
-- The lot row of a saved Deal is looked up by its lot number, whatever the Deal named before.
use fresko_universe.Ats.{lot_of}
use fresko_universe.Data.{Deal, Lot, Flags}
use fresko_universe.Db.{deal_key, Result-cases, Db, ok}
use fresko_universe.DealDoc.{
  fetch_defaults_from_container, validate_qty, with_lot, resolve_lot,
  validate_lot_belongs_to_container, compute_amount, passing, validate, save_deal,
}
use fresko_universe.DealDoc.Kept.{fetch-SameCore, passing-ok, and_then-ok}
use fresko_universe.Prelude.{
  ℕ, ◌≡◌, refl, sym, ap, ◌∙◌, subst, inl, inr, none, some, Ref, Option-cases, find,
}

-- The row of the Deal's lot number, and that the Deal points at it.
pub record HasLot (db : Db) (lot : ℕ) (d : Deal) : Type 0 where
  pub row : Lot
  pub found : lot_of d.container lot db ≡ some row
  pub named : d.container_lot ≡ some row.name

resolve_lot-HasLot :
    (db : Db) (o : Ref) (lot : ℕ) (a b : Deal)
    → o ≡ some lot
    → resolve_lot db o a ≡ ok b
    → HasLot db lot (compute_amount b)
unfolding resolve_lot with_lot compute_amount
resolve_lot-HasLot db none lot a b e h = absurd (cc)
resolve_lot-HasLot db (some n) lot a b e h = elim (Option-cases (lot_of a.container n db)) [
  | inl f ↦ (let g = (rw (f, resolve_lot) at h) in absurd (cc))
  | inr (l, f) ↦
      let g = (rw (f, resolve_lot) at h) in
      let is : with_lot l a ≡ b = cc in
      let same : n ≡ lot = cc in
      subst (λ x. HasLot db lot (compute_amount x)) is
        (record { row = l; found = rw (← same) f; named = refl })
]

-- After a save, a Deal with a lot number points at the row of that number in its Container,
-- whatever row the Deal named before.
pub save_deal-HasLot :
    (flags : Flags) (d d' : Deal) (lot : ℕ) (db db' : Db)
    → d.lot_no ≡ some lot
    → save_deal flags d db ≡ ok (d', db')
    → HasLot db lot d'
unfolding save_deal validate
save_deal-HasLot flags d d' lot db db' e h =
    elim (Result-cases (validate db flags (find deal_key d.name db.deals) d)) [
      | inr (x, failed) ↦ (let g = (rw (failed, save_deal) at h) in absurd (cc))
      | inl (x, done) ↦
          let g = (rw (done, save_deal) at h) in
          let is : x ≡ d' = cc in subst (HasLot db lot) is (of_validate x done)
    ]
  where
    of_validate :
        (x : Deal) → validate db flags (find deal_key d.name db.deals) d ≡ ok x → HasLot db lot x
    of_validate x k =
        let (d1, e1, h1) = and_then-ok (fetch_defaults_from_container db d) _ x k in
        let (d2, e2, h2) = and_then-ok (passing (validate_qty d1) d1) _ x h1 in
        let (d3, e3, h3) = and_then-ok (validate_lot_belongs_to_container db d2) _ x h2 in
        let stored = (passing-ok _ (compute_amount d3) x h3).1 in
        let s12 = (passing-ok (validate_qty d1) d1 d2 e2).1 in
        let lot2 : d2.lot_no ≡ some lot =
          ap (λ (y : Deal). y.lot_no) (sym s12) ∙ (fetch-SameCore db d d1 e1).lot_no ∙ e in
        subst (HasLot db lot) stored (
          resolve_lot-HasLot db d2.lot_no lot d2 d3 lot2
            (unfold validate_lot_belongs_to_container in e3))
