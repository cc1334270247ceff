-- ===== src/Outwards/Stock.antt =====
-- What is physically left once an Outward or a reversal is posted.
use fresko_universe.Ats.{lots_of, lot_of}
use fresko_universe.Data.{
  Lot, Container, OutwardLine, OutwardFacts, Outward, OutwardStatus, MovementType,
}
use fresko_universe.Db.{
  Check, pass, throw_if, container_key, outward_key, ignore, throw_if-pass, then_check-pass,
  or_throw-ok, ignore-pass, Db, Result, ok, err, Error,
}
use fresko_universe.Db.Frame.{SameStock}
use fresko_universe.Outwards.{
  reversal_exists, is_posted_outward, mapped_lots, check_mapped, lines_total, lines_uoms,
  capacity_checks, same_shape, mirror_checks, reversed_of,
}
use fresko_universe.Outwards.Mapped.{has_lot, lot_total, lots_checked}
use fresko_universe.Physical.{
  PostedLine, posted_lines, signed_qty, tolerance, assert_container_capacity,
}
use fresko_universe.Physical.Ledger.{net_of_lot, net_of_all, assert_container_capacity-net}
use fresko_universe.Physical.Weighed.{
  weigh, weigh_lines, weigh-put, lot_weight, net_of_lot-weigh, net_of_all-weigh,
}
use fresko_universe.Prelude.{
  ℕ, ◌≡◌, refl, sym, ap, ◌∙◌, subst, inl, inr, Bool, true, false, ◌&&◌, not, some, List, [], ◌∷◌,
  arith, ◌=?◌, not-false, =?-eq, Bool-cases, Option-cases, find, put, find-key,
}
use fresko_universe.Prelude.Int.{◌+ℤ◌, ◌-ℤ◌, ◌≤ℤ◌, eqb_ℤ-eq, ℤ, int_laws, pos}

-- What is posted of the Outward's Container, and of each lot that it names, is within the inward
-- quantities, up to 1e-9.
pub record WithinStock (o : Outward) (db : Db) : Type 0 where
  pub total :
      (c : Container) × (find container_key o.container db.containers ≡ some c)
      × (net_of_all (posted_lines o.container db.outwards) ≤ℤ c.inward_qty +ℤ tolerance)
  pub lots :
      (lot : ℕ)
      → has_lot lot o.lines ≡ true
      → (l : Lot) × (lot_of o.container lot db ≡ some l)
        × (net_of_lot lot (posted_lines o.container db.outwards) ≤ℤ l.inward_qty +ℤ tolerance)

-- The Outward reverses a posted one in full, and no other does: what is posted of each lot falls
-- by what the original took.
pub record Reverses (o : Outward) (db db' : Db) : Type 0 where
  pub original : Outward
  pub named : o.reverses_outward ≡ some original.name
  pub found : find outward_key original.name db.outwards ≡ some original
  pub was_posted : is_posted_outward original ≡ true
  pub only : reversal_exists original.name (some o.name) db ≡ false
  pub back :
      (lot : ℕ)
      → net_of_lot lot (posted_lines o.container db'.outwards) +ℤ lot_total lot original.lines
        ≡ net_of_lot lot (posted_lines o.container db.outwards)

weigh_lines-lot_total :
    (lot : ℕ) (ls : List OutwardLine)
    → weigh_lines (lot_weight lot) MovementType.outward ls ≡ lot_total lot ls
unfolding weigh_lines lot_weight lot_total signed_qty
weigh_lines-lot_total lot [] = refl
weigh_lines-lot_total lot (l ∷ ls) = rw (weigh_lines-lot_total lot ls) refl

weigh_lines-lines_total :
    (ls : List OutwardLine) → weigh_lines signed_qty MovementType.outward ls ≡ lines_total ls
unfolding weigh_lines lines_total signed_qty
weigh_lines-lines_total [] = refl
weigh_lines-lines_total (l ∷ ls) = rw (weigh_lines-lines_total ls) refl

reversal_weight :
    (lot : ℕ) (ls : List OutwardLine)
    → weigh_lines (lot_weight lot) MovementType.reversal ls ≡ pos 0 -ℤ lot_total lot ls
unfolding weigh_lines lot_weight lot_total signed_qty ◌-ℤ◌
reversal_weight lot [] = refl
reversal_weight lot (l ∷ ls) =
    rw (reversal_weight lot ls) (elim (Bool-cases (l.lot_no =? some lot)) [
      | inl e ↦ rw e (omega int_laws)
      | inr e ↦ rw e (omega int_laws)
    ])

lot_total-same_shape :
    (lot : ℕ) (xs ys : List OutwardLine)
    → same_shape xs ys ≡ true
    → lot_total lot xs ≡ lot_total lot ys
unfolding lot_total same_shape
lot_total-same_shape lot [] [] h = refl
lot_total-same_shape lot [] (y ∷ ys) h = absurd (cc)
lot_total-same_shape lot (x ∷ xs) [] h = absurd (cc)
lot_total-same_shape lot (x ∷ xs) (y ∷ ys) h =
    let (a, b, c, d) = four _ _ _ _ h in
    rw (=?-eq x.lot_no y.lot_no a, eqb_ℤ-eq x.qty y.qty c, lot_total-same_shape lot xs ys d) refl
  where
    four :
        (a b c d : Bool)
        → (a && b && c && d) ≡ true
        → (a ≡ true) × (b ≡ true) × (c ≡ true) × (d ≡ true)
    four a b c d h = ground arith

-- The row that the post writes.
abbrev pub with_row : Db → Outward → Db
with_row db o = record db { outwards = put outward_key o db.outwards }

-- What is posted of the Container, by any weight, once the row is written.
pub written_weight :
    (w : PostedLine → ℤ) (old saved : Outward) (db : Db)
    → find outward_key old.name db.outwards ≡ some old
    → old.status ≡ OutwardStatus.review_pending
    → saved.name ≡ old.name
    → saved.facts ≡ old.facts
    → saved.status ≡ OutwardStatus.posted
    → weigh w (posted_lines old.container (with_row db saved).outwards)
      ≡ weigh w (posted_lines old.container db.outwards)
        +ℤ weigh_lines w old.movement_type old.lines
written_weight w old saved db found waited name facts status =
    subst
      (λ (x : OutwardFacts).
        weigh w (posted_lines x.container (with_row db saved).outwards)
        ≡ weigh w (posted_lines x.container db.outwards) +ℤ weigh_lines w x.movement_type x.lines)
      facts
      (weigh-put w saved.container saved old db.outwards
        (subst (λ n. find outward_key n db.outwards ≡ some old) (sym name) found) (rw waited refl)
        refl (rw status refl))

-- What an Outward adds, for all lines and for those of a lot, given by the weights.
module _ (old saved : Outward) (db : Db)
    (written : (w : PostedLine → ℤ)
      → weigh w (posted_lines old.container (with_row db saved).outwards)
        ≡ weigh w (posted_lines old.container db.outwards)
          +ℤ weigh_lines w old.movement_type old.lines) where
  all_after :
      old.movement_type ≡ MovementType.outward
      → net_of_all (posted_lines old.container (with_row db saved).outwards)
        ≡ net_of_all (posted_lines old.container db.outwards) +ℤ lines_total old.lines
  all_after outward =
      net_of_all-weigh (posted_lines old.container (with_row db saved).outwards)
      ∙ written signed_qty
      ∙ ap
          (λ m.
            weigh signed_qty (posted_lines old.container db.outwards)
            +ℤ weigh_lines signed_qty m old.lines)
          outward
      ∙ rw
          (
            net_of_all-weigh (posted_lines old.container db.outwards),
            weigh_lines-lines_total old.lines,
          )
          refl

  lot_after :
      (lot : ℕ)
      → net_of_lot lot (posted_lines old.container (with_row db saved).outwards)
        ≡ net_of_lot lot (posted_lines old.container db.outwards)
          +ℤ weigh_lines (lot_weight lot) old.movement_type old.lines
  lot_after lot =
      net_of_lot-weigh lot (posted_lines old.container (with_row db saved).outwards)
      ∙ written (lot_weight lot)
      ∙ rw (net_of_lot-weigh lot (posted_lines old.container db.outwards)) refl

  pub posted-WithinStock :
      capacity_checks old db ≡ pass
      → old.movement_type ≡ MovementType.outward
      → WithinStock old (with_row db saved)
  unfolding capacity_checks lot_of lots_of
  posted-WithinStock checks outward =
      let (total, mapped) =
        then_check-pass
          (ignore (
            assert_container_capacity old.container (lines_total old.lines) (lines_uoms old.lines)
              db))
          _ checks in
      let (left, t) = ignore-pass _ total in
      let (c, found, net) =
        assert_container_capacity-net old.container (lines_total old.lines) left
          (lines_uoms old.lines) db t in
      record {
        total = (c, found, rw (all_after outward) net);
        lots = λ lot has.
            let (ms, e, m) =
              mapped-ok (mapped_lots old.lines []) (λ ms. check_mapped old.container ms db)
                mapped in
            let (l, row, fits) = lots_checked old.container lot old.lines ms db e m has in
            (
              l,
              row,
              rw (lot_after lot) (rw outward (rw (weigh_lines-lot_total lot old.lines) fits)),
            );
      }
    where
      mapped-ok :
          {A : Type 0} (r : Result A) (f : A → Check)
          → (elim r [ err e ↦ err e | ok a ↦ f a ]) ≡ pass
          → (a : A) × (r ≡ ok a) × (f a ≡ pass)
      mapped-ok (ok a) f h = (a, refl, h)
      mapped-ok (err e) f h = absurd (cc)

  pub posted-Reverses :
      (original : Outward)
      → old.movement_type ≡ MovementType.reversal
      → reversed_of old db ≡ ok original
      → mirror_checks original old db ≡ pass
      → Reverses old db (with_row db saved)
  unfolding mirror_checks reversed_of
  posted-Reverses original reversal named checks =
      let (h2, shape) =
        then_check-pass _ (throw_if (not (same_shape original.lines old.lines)) Error.not_a_mirror)
          checks in
      let (posted, only) =
        then_check-pass (throw_if (not (is_posted_outward original)) Error.not_posted_outward) _
          h2 in
      let mirror : same_shape original.lines old.lines ≡ true =
        not-false _ (throw_if-pass _ Error.not_a_mirror shape) in
      elim (Option-cases old.reverses_outward) [
        | inl e ↦ (let g = (rw (e, reversed_of) at named) in absurd (cc))
        | inr (m, e) ↦
            let g = (rw (e, reversed_of) at named) in
            let found = or_throw-ok (find outward_key m db.outwards) Error.not_found original g in
            let here = find-key outward_key m db.outwards original found in
            record {
              original = original;
              named = e ∙ ap some (sym here);
              found = subst (λ k. find outward_key k db.outwards ≡ some original) (sym here) found;
              was_posted = not-false _ (throw_if-pass _ Error.not_posted_outward posted);
              only = throw_if-pass _ Error.already_reversed only;
              back = λ lot. rw (lot_after lot) (
                  rw reversal (
                    rw
                      (
                        reversal_weight lot old.lines,
                        lot_total-same_shape lot original.lines old.lines mirror,
                      )
                      (omega int_laws)));
            }
      ]

-- What is within the stock stays so where only other tables are written.
pub WithinStock-SameStock :
    (o : Outward) (db db' : Db) → SameStock db db' → WithinStock o db → WithinStock o db'
unfolding lot_of lots_of
WithinStock-SameStock o db db' same w = record {
  total = rw (same.containers, same.outwards) w.total;
  lots = λ lot has.
      let (l, row, fits) = w.lots lot has in (l, rw (same.containers) row, rw (same.outwards) fits);
}

pub Reverses-SameStock :
    (o : Outward) (db mid db' : Db) → SameStock mid db' → Reverses o db mid → Reverses o db db'
Reverses-SameStock o db mid db' same r = record {
  original = r.original;
  named = r.named;
  found = r.found;
  was_posted = r.was_posted;
  only = r.only;
  back = λ lot. rw (same.outwards) (r.back lot);
}
