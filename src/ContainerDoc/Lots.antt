-- ===== src/ContainerDoc/Lots.antt =====
-- What a save of a Container keeps of its lot rows.
use fresko_universe.ContainerDoc.{
  validate_lot_row, validate_lot_rows, sum_inward, sum_tolerance, far_apart, has_lots,
  validate_lots, validate_inward_qty, validate_inward_vs_posted_physical,
  validate_inward_vs_approved_sold, validate_container_transition, validate_close_gate,
  validate_container, save_container,
}
use fresko_universe.Data.{Lot, Container}
use fresko_universe.Db.{
  pass, throw_if, container_key, throw_if-pass, then_check-pass, after_check, Db, ok, Error,
}
use fresko_universe.Prelude.{
  ◌≡◌, refl, ◌∙◌, inl, inr, Bool, true, false, ◌&&◌, ◌||◌, not, List, [], ◌∷◌, arith, Ref, is_set,
  ◌=?◌, not-false, =?-eq, Bool-cases, =?-sym, any, find,
}
use fresko_universe.Prelude.Int.{◌-ℤ◌, ◌≤ℤ◌, ltb_ℤ, ltb_ℤ-false, ℤ, pos}

-- Every row has a number of its own, a unit that is the Container's, and no negative quantity.
abbrev pub LotsDiffer : Ref → List Lot → Type 0
LotsDiffer uom [] = Unit {0}
LotsDiffer uom (l ∷ rest) =
    (is_set l.lot_no ≡ true)
    × (pos 0 ≤ℤ l.inward_qty)
    × (is_set uom ≡ true → l.uom ≡ uom)
    × (any (λ x. x.lot_no =? l.lot_no) rest ≡ false)
    × LotsDiffer uom rest

-- The rows are well-formed, and their quantities add up to the Container's within 0.0001.
pub record LotsSound (c : Container) : Type 0 where
  pub rows : LotsDiffer c.uom c.lots
  pub sum :
      has_lots c.lots ≡ true
      → (sum_inward c.lots -ℤ c.inward_qty ≤ℤ sum_tolerance)
        × (c.inward_qty -ℤ sum_inward c.lots ≤ℤ sum_tolerance)

row-pass :
    (uom : Ref) (seen : List Ref) (l : Lot)
    → validate_lot_row uom seen l ≡ pass
    → (is_set l.lot_no ≡ true)
      × (any (λ n. n =? l.lot_no) seen ≡ false)
      × (pos 0 ≤ℤ l.inward_qty)
      × (is_set uom ≡ true → l.uom ≡ uom)
unfolding validate_lot_row
row-pass uom seen l h =
    let (h4, same) =
      then_check-pass _ (throw_if (is_set uom && not (l.uom =? uom)) Error.uom_mismatch) h in
    let (h3, unit) = then_check-pass _ (throw_if (not (is_set l.uom)) Error.lot_uom_required) h4 in
    let (h2, nonneg) =
      then_check-pass _ (throw_if (ltb_ℤ l.inward_qty (pos 0)) Error.negative_inward) h3 in
    let (number, new) =
      then_check-pass (throw_if (not (is_set l.lot_no)) Error.lot_no_required)
        (throw_if (any (λ n. n =? l.lot_no) seen) Error.duplicate_lot) h2 in
    (
      not-false _ (throw_if-pass _ Error.lot_no_required number),
      throw_if-pass _ Error.duplicate_lot new,
      ltb_ℤ-false l.inward_qty (pos 0) (throw_if-pass _ Error.negative_inward nonneg),
      λ e.
          =?-eq l.uom uom
            (only_if (is_set uom) (l.uom =? uom) (throw_if-pass _ Error.uom_mismatch same) e),
    )
  where
    only_if : (a b : Bool) → (a && not b) ≡ false → a ≡ true → b ≡ true
    only_if a b h e = ground arith

-- No later row has a number that was seen.
rows-unseen :
    (uom : Ref) (seen : List Ref) (rows : List Lot) (n : Ref)
    → validate_lot_rows uom seen rows ≡ pass
    → ((x : Ref) → any (λ k. k =? x) seen ≡ false → (n =? x) ≡ false)
    → any (λ x. x.lot_no =? n) rows ≡ false
unfolding validate_lot_rows any
rows-unseen uom seen [] n h out = refl
rows-unseen uom seen (l ∷ rest) n h out =
    let (first, later) =
      then_check-pass (validate_lot_row uom seen l) (validate_lot_rows uom (l.lot_no ∷ seen) rest)
        h in
    let (number, new, nonneg, unit) = row-pass uom seen l first in
    let differs : (l.lot_no =? n) ≡ false = =?-sym l.lot_no n ∙ out l.lot_no new in
    rw differs (
      rows-unseen uom (l.lot_no ∷ seen) rest n later
        (λ x e. out x (or_right (l.lot_no =? x) (any (λ k. k =? x) seen) e)))
  where
    or_right : (a b : Bool) → (a || b) ≡ false → b ≡ false
    or_right a b h = ground arith

rows-LotsDiffer :
    (uom : Ref) (seen : List Ref) (rows : List Lot)
    → validate_lot_rows uom seen rows ≡ pass
    → LotsDiffer uom rows
unfolding validate_lot_rows any
rows-LotsDiffer uom seen [] h = tt
rows-LotsDiffer uom seen (l ∷ rest) h =
    let (first, later) =
      then_check-pass (validate_lot_row uom seen l) (validate_lot_rows uom (l.lot_no ∷ seen) rest)
        h in
    let (number, new, nonneg, unit) = row-pass uom seen l first in
    (
      number,
      nonneg,
      unit,
      rows-unseen uom (l.lot_no ∷ seen) rest l.lot_no later
          (λ x e. or_left (l.lot_no =? x) (any (λ k. k =? x) seen) e),
      rows-LotsDiffer uom (l.lot_no ∷ seen) rest later,
    )
  where
    or_left : (a b : Bool) → (a || b) ≡ false → a ≡ false
    or_left a b h = ground arith

apart-false :
    (a b : ℤ) → far_apart a b ≡ false → (a -ℤ b ≤ℤ sum_tolerance) × (b -ℤ a ≤ℤ sum_tolerance)
unfolding far_apart
apart-false a b h = elim (Bool-cases (ltb_ℤ sum_tolerance (a -ℤ b))) [
  | inl e ↦ absurd (cc (rw e at h))
  | inr e ↦ (ltb_ℤ-false sum_tolerance (a -ℤ b) e, ltb_ℤ-false sum_tolerance (b -ℤ a) (rw e at h))
]

-- A Container that is saved, new or not, has lot rows with numbers of their own, in its own unit
-- if it has one, none of a negative quantity, and, where it has any, with a sum within 0.0001 of
-- its inward quantity.
pub save_container-LotsSound :
    (companies : Ref → Bool) (reason : Bool) (c : Container) (db db' : Db)
    → save_container companies reason c db ≡ ok (tt, db')
    → LotsSound c
unfolding save_container validate_container validate_lots
save_container-LotsSound companies reason c db db' h =
    after_check
      (λ x. validate_container companies x reason (find container_key c.name x.containers) c) _ db
      db' tt h
      λ e k.
        let old = find container_key c.name db.containers in
        let (h7, gate) = then_check-pass _ (validate_close_gate db c) e in
        let (h6, transition) = then_check-pass _ (validate_container_transition old c) h7 in
        let (h5, sold) = then_check-pass _ (validate_inward_vs_approved_sold db old c) h6 in
        let (h4, posted) = then_check-pass _ (validate_inward_vs_posted_physical db old c) h5 in
        let (h3, inward) = then_check-pass _ (validate_inward_qty reason old c) h4 in
        let (h2, lots) = then_check-pass _ (validate_lots c) h3 in
        let (rows, sum) =
          then_check-pass _
            (throw_if (has_lots c.lots && far_apart (sum_inward c.lots) c.inward_qty)
              Error.lot_sum_differs)
            lots in
        let (each, arrived) = then_check-pass (validate_lot_rows c.uom [] c.lots) _ rows in
        record {
          rows = rows-LotsDiffer c.uom [] c.lots each;
          sum = λ some_lots.
              apart-false (sum_inward c.lots) c.inward_qty
                (let g = (throw_if-pass _ Error.lot_sum_differs sum) in rw some_lots at g);
        }
