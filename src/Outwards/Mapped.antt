-- ===== src/Outwards/Mapped.antt =====
-- The totals of the mapped lots are the sums of the lots' lines, and each is checked.
use fresko_universe.Ats.{lot_of}
use fresko_universe.Data.{Lot, OutwardLine}
use fresko_universe.Db.{pass, ignore, Result-cases, then_check-pass, ignore-pass, Db, ok}
use fresko_universe.Outwards.{add_mapped, mapped_lots, check_mapped, MappedLot}
use fresko_universe.Physical.{posted_lines, tolerance, assert_mapped_lot_capacity}
use fresko_universe.Physical.Ledger.{net_of_lot, assert_mapped_lot_capacity-net}
use fresko_universe.Prelude.{
  ℕ, ◌≡◌, refl, sym, ap, ◌∙◌, subst, inl, inr, Bool, true, false, ◌||◌, Option, none, some, List,
  [], ◌∷◌, arith, ◌==◌, if◌then◌else◌, Ref, is_set, ◌=?◌, ==-eq, Bool-cases, Option-cases, any,
  find,
}
use fresko_universe.Prelude.Int.{◌+ℤ◌, ◌≤ℤ◌, ℤ, int_laws, pos}

abbrev pub mapped_key : MappedLot → ℕ
mapped_key m = m.lot

-- The total of a lot, 0 where it has none.
abbrev pub total_of : Option MappedLot → ℤ
total_of none = pos 0
total_of (some m) = m.quantity

-- Some line is of the lot.
abbrev pub has_lot : ℕ → List OutwardLine → Bool
has_lot lot = any λ l. l.lot_no =? some lot

-- What the lines take of the lot.
unfoldable pub lot_total : ℕ → List OutwardLine → ℤ
lot_total lot [] = pos 0
lot_total lot (l ∷ ls) = (if l.lot_no =? some lot then l.qty else pos 0) +ℤ lot_total lot ls

-- The row of `lot` once `q` has been added to that of `k`.
record Added (lot k : ℕ) (q : ℤ) (before now : Option MappedLot) : Type 0 where
  total : total_of now ≡ (if k == lot then total_of before +ℤ q else total_of before)
  there : is_set now ≡ (k == lot || is_set before)

new_row :
    (lot k : ℕ) (u : Ref) (q : ℤ)
    → Added lot k q none
        (if k == lot then some (record { lot = k; uom = u; quantity = q }) else none)
new_row lot k u q = elim (Bool-cases (k == lot)) [
  | inl e ↦ rw e (record { total = rw e (omega int_laws); there = rw e refl })
  | inr e ↦ rw e (record { total = rw e refl; there = rw e refl })
]

same_row :
    (lot : ℕ) (m : MappedLot) (q : ℤ) (rest : Option MappedLot)
    → Added lot m.lot q
        (if m.lot == lot then some m else rest)
        (if m.lot == lot then some (record m { quantity = m.quantity +ℤ q }) else rest)
same_row lot m q rest = elim (Bool-cases (m.lot == lot)) [
  | inl e ↦ rw e (record { total = rw e refl; there = rw e refl })
  | inr e ↦ rw e (record { total = rw e refl; there = rw e refl })
]

other_row :
    (lot k : ℕ) (m : MappedLot) (q : ℤ) (before now : Option MappedLot)
    → (m.lot == k) ≡ false
    → Added lot k q before now
    → Added lot k q (if m.lot == lot then some m else before) (if m.lot == lot then some m else now)
other_row lot k m q before now n a = elim (Bool-cases (m.lot == lot)) [
  | inl e ↦
      let other : (k == lot) ≡ false = ground arith in
      rw e (record { total = rw other refl; there = rw other refl })
  | inr e ↦ rw e a
]

add_mapped-Added :
    (lot k : ℕ) (u : Ref) (q : ℤ) (ms ms' : List MappedLot)
    → add_mapped k u q ms ≡ ok ms'
    → Added lot k q (find mapped_key lot ms) (find mapped_key lot ms')
unfolding add_mapped find
add_mapped-Added lot k u q [] ms' h =
    let is : (record { lot = k; uom = u; quantity = q } ∷ []) ≡ ms' = cc in
    subst (λ ms. Added lot k q none (find mapped_key lot ms)) is (new_row lot k u q)
add_mapped-Added lot k u q (m ∷ ms) ms' h = elim (Bool-cases (m.lot == k)) [
  | inl e ↦ elim (Bool-cases (m.uom =? u)) [
    | inr n ↦ (let g = (rw (e, n, add_mapped) at h) in absurd (cc))
    | inl y ↦
        let g = (rw (e, y, add_mapped) at h) in
        let is : (record m { quantity = m.quantity +ℤ q } ∷ ms) ≡ ms' = cc in
        subst (λ ms'. Added lot k q (find mapped_key lot (m ∷ ms)) (find mapped_key lot ms')) is
          (rw (← ==-eq m.lot k e) (same_row lot m q (find mapped_key lot ms)))
  ]
  | inr e ↦ elim (Result-cases (add_mapped k u q ms)) [
    | inr (x, f) ↦ (let g = (rw (e, f, add_mapped) at h) in absurd (cc))
    | inl (r, f) ↦
        let g = (rw (e, f, add_mapped) at h) in
        let is : (m ∷ r) ≡ ms' = cc in
        subst (λ ms'. Added lot k q (find mapped_key lot (m ∷ ms)) (find mapped_key lot ms')) is
          (other_row lot k m q (find mapped_key lot ms) (find mapped_key lot r) e
            (add_mapped-Added lot k u q ms r f))
  ]
]

-- What the totals come to, once the lines are added to those before them.
pub record Totals (lot : ℕ) (ls : List OutwardLine) (before now : Option MappedLot) : Type 0 where
  pub total : total_of now ≡ total_of before +ℤ lot_total lot ls
  pub there : has_lot lot ls ≡ true → is_set now ≡ true
  pub kept : is_set before ≡ true → is_set now ≡ true

joined :
    (lot k : ℕ) (l : OutwardLine) (ls : List OutwardLine) (before mid now : Option MappedLot)
    → Added lot k l.qty before mid
    → Totals lot ls mid now
    → Totals lot (record l { lot_no = some k } ∷ ls) before now
unfolding lot_total any
joined lot k l ls before mid now a r = elim (Bool-cases (k == lot)) [
  | inl e ↦
      let there : is_set mid ≡ true = a.there ∙ rw e refl in
      let t : total_of mid ≡ total_of before +ℤ l.qty = a.total ∙ rw e refl in
      record {
        total = rw e (rw (r.total, t) (omega int_laws));
        there = λ _. r.kept there;
        kept = λ _. r.kept there;
      }
  | inr e ↦
      let same : is_set mid ≡ is_set before = a.there ∙ rw e refl in
      let t : total_of mid ≡ total_of before = a.total ∙ rw e refl in
      record {
        total = rw e (rw (r.total, t) (omega int_laws));
        there = λ h. r.there (rw e at h);
        kept = λ h. r.kept (same ∙ h);
      }
]

pub mapped_lots-Totals :
    (lot : ℕ) (ls : List OutwardLine) (ms ms' : List MappedLot)
    → mapped_lots ls ms ≡ ok ms'
    → Totals lot ls (find mapped_key lot ms) (find mapped_key lot ms')
unfolding mapped_lots lot_total any
mapped_lots-Totals lot [] ms ms' h =
    let is : ms ≡ ms' = cc in
    subst (λ x. Totals lot [] (find mapped_key lot ms) (find mapped_key lot x)) is
      (record { total = omega int_laws; there = λ e. absurd (cc); kept = λ e. e })
mapped_lots-Totals lot (l ∷ ls) ms ms' h = elim (Option-cases l.lot_no) [
  | inl e ↦
      let r = mapped_lots-Totals lot ls ms ms' (rw e at h) in
      record {
        total = rw e (rw r.total (omega int_laws));
        there = λ t. r.there (rw e at t);
        kept = r.kept;
      }
  | inr (k, e) ↦ elim (Result-cases (add_mapped k l.uom l.qty ms)) [
    | inr (x, f) ↦ (let g = (rw (e, f, mapped_lots) at h) in absurd (cc))
    | inl (m1, f) ↦
        let a = add_mapped-Added lot k l.uom l.qty ms m1 f in
        let r = mapped_lots-Totals lot ls m1 ms' (rw (e, f, mapped_lots) at h) in
        rw e (
          joined lot k l ls (find mapped_key lot ms) (find mapped_key lot m1)
            (find mapped_key lot ms') a r)
  ]
]

-- Every row that is there was checked.
pub check_mapped-net :
    (container lot : ℕ) (ms : List MappedLot) (m : MappedLot) (db : Db)
    → check_mapped container ms db ≡ pass
    → find mapped_key lot ms ≡ some m
    → (l : Lot) × (lot_of container lot db ≡ some l)
      × (m.uom ≡ l.uom)
      × (net_of_lot lot (posted_lines container db.outwards) +ℤ m.quantity
          ≤ℤ l.inward_qty +ℤ tolerance)
unfolding check_mapped find
check_mapped-net container lot [] m db h f = absurd (cc)
check_mapped-net container lot (x ∷ ms) m db h f =
    let (first, rest) =
      then_check-pass (ignore (assert_mapped_lot_capacity container x.lot x.quantity x.uom db))
        (check_mapped container ms db) h in
    elim (Bool-cases (x.lot == lot)) [
      | inr e ↦ check_mapped-net container lot ms m db rest (rw e at f)
      | inl e ↦
          let g = (rw e at f) in
          let is : x ≡ m = cc in
          let here : m.lot ≡ lot = ap mapped_key (sym is) ∙ ==-eq x.lot lot e in
          let (left, c) =
            ignore-pass (assert_mapped_lot_capacity container m.lot m.quantity m.uom db)
              (rw (← is) first) in
          assert_mapped_lot_capacity-net container lot m.quantity left m.uom db (rw here at c)
    ]

-- Where the checks of a movement pass, what its lines take of a mapped lot and what is posted of
-- it stay within the lot's inward quantity.
pub lots_checked :
    (container lot : ℕ) (ls : List OutwardLine) (ms : List MappedLot) (db : Db)
    → mapped_lots ls [] ≡ ok ms
    → check_mapped container ms db ≡ pass
    → has_lot lot ls ≡ true
    → (l : Lot) × (lot_of container lot db ≡ some l)
      × (net_of_lot lot (posted_lines container db.outwards) +ℤ lot_total lot ls
          ≤ℤ l.inward_qty +ℤ tolerance)
unfolding find
lots_checked container lot ls ms db h c has =
    let t = mapped_lots-Totals lot ls [] ms h in
    elim (Option-cases (find mapped_key lot ms)) [
      | inl e ↦ (let g = (rw e at (t.there has)) in absurd (cc))
      | inr (m, e) ↦
          let (l, found, uom, net) = check_mapped-net container lot ms m db c e in
          let total : m.quantity ≡ lot_total lot ls = rw e at t.total ∙ omega int_laws in
          (
            l,
            found,
            subst
                (λ (z : ℤ).
                  net_of_lot lot (posted_lines container db.outwards) +ℤ z
                  ≤ℤ l.inward_qty +ℤ tolerance)
                total net,
          )
    ]
