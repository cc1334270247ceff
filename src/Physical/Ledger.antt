-- ===== src/Physical/Ledger.antt =====
-- The two buckets against a plain sum over the posted lines, and what the capacity checks leave.
use fresko_universe.Ats.{lot_of}
use fresko_universe.Data.{Lot, Container}
use fresko_universe.Db.{container_key, Db, ok}
use fresko_universe.Physical.{
  PostedLine, posted_lines, signed_qty, add_to_lot, add_line, add_lines, nothing_posted,
  posted_physical_quantities, posted_of, sum_values, posted_total, tolerance, remaining_after,
  assert_mapped_lot_capacity, assert_container_capacity, Posted,
}
use fresko_universe.Prelude.{
  ℕ, ◌≡◌, refl, inl, inr, not, none, some, List, [], ◌∷◌, arith, ◌==◌, if◌then◌else◌, Ref, ◌=?◌,
  =?-eq, Bool-cases, Option-cases, any, find,
}
use fresko_universe.Prelude.Int.{◌+ℤ◌, ◌-ℤ◌, ◌≤ℤ◌, ltb_ℤ, ltb_ℤ-false, ℤ, int_laws, pos}

-- The net posted quantity of a lot, line by line.
unfoldable pub net_of_lot : ℕ → List PostedLine → ℤ
net_of_lot lot [] = pos 0
net_of_lot lot ((m, l) ∷ rest) =
    (if l.lot_no =? some lot then signed_qty (m, l) else pos 0) +ℤ net_of_lot lot rest

-- The net posted quantity of all lines.
unfoldable pub net_of_all : List PostedLine → ℤ
net_of_all [] = pos 0
net_of_all ((m, l) ∷ rest) = signed_qty (m, l) +ℤ net_of_all rest

posted_of-add_to_lot :
    (lot k : ℕ) (q : ℤ) (rows : List (ℕ × ℤ))
    → posted_of lot (add_to_lot k q rows)
      ≡ (if k == lot then posted_of lot rows +ℤ q else posted_of lot rows)
unfolding posted_of add_to_lot
posted_of-add_to_lot lot k q [] = elim (Bool-cases (k == lot)) [
  | inl e ↦ rw e (omega int_laws)
  | inr e ↦ rw e refl
]
posted_of-add_to_lot lot k q ((j, v) ∷ rest) = ground (arith, posted_of-add_to_lot lot k q rest)

sum_values-add_to_lot :
    (k : ℕ) (q : ℤ) (rows : List (ℕ × ℤ)) → sum_values (add_to_lot k q rows) ≡ sum_values rows +ℤ q
unfolding sum_values add_to_lot
sum_values-add_to_lot k q [] = omega int_laws
sum_values-add_to_lot k q ((j, v) ∷ rest) = elim (Bool-cases (j == k)) [
  | inl e ↦ rw e (omega int_laws)
  | inr e ↦ rw e (rw (sum_values-add_to_lot k q rest) (omega int_laws))
]

add_lines-by_lot :
    (lot : ℕ) (lines : List PostedLine) (p : Posted)
    → posted_of lot (add_lines lines p).by_lot ≡ posted_of lot p.by_lot +ℤ net_of_lot lot lines
unfolding add_lines net_of_lot add_line
add_lines-by_lot lot [] p = omega int_laws
add_lines-by_lot lot ((m, l) ∷ rest) p =
    rw (add_lines-by_lot lot rest (add_line l.lot_no (signed_qty (m, l)) p))
      (line l.lot_no (signed_qty (m, l)) p (net_of_lot lot rest))
  where
    line :
        (o : Ref) (q : ℤ) (p : Posted) (rest : ℤ)
        → posted_of lot (add_line o q p).by_lot +ℤ rest
          ≡ posted_of lot p.by_lot +ℤ ((if o =? some lot then q else pos 0) +ℤ rest)
    line none q p rest = omega int_laws
    line (some k) q p rest = elim (Bool-cases (k == lot)) [
      | inl e ↦ rw (posted_of-add_to_lot lot k q p.by_lot, e) (omega int_laws)
      | inr e ↦ rw (posted_of-add_to_lot lot k q p.by_lot, e) (omega int_laws)
    ]

add_lines-total :
    (lines : List PostedLine) (p : Posted)
    → posted_total (add_lines lines p) ≡ posted_total p +ℤ net_of_all lines
unfolding add_lines net_of_all add_line posted_total
add_lines-total [] p = omega int_laws
add_lines-total ((m, l) ∷ rest) p =
    rw (add_lines-total rest (add_line l.lot_no (signed_qty (m, l)) p))
      (line l.lot_no (signed_qty (m, l)) p (net_of_all rest))
  where
    line :
        (o : Ref) (q : ℤ) (p : Posted) (rest : ℤ)
        → posted_total (add_line o q p) +ℤ rest ≡ posted_total p +ℤ (q +ℤ rest)
    line none q p rest = omega int_laws
    line (some k) q p rest = rw (sum_values-add_to_lot k q p.by_lot) (omega int_laws)

-- What posted_physical_quantities gives for a lot is the sum of the lot's posted lines, reversals
-- negative; and all that it gives, the unmapped bucket included, is the sum of all posted lines.
pub posted_physical_quantities-net :
    (container : ℕ) (db : Db)
    → ((lot : ℕ)
        → posted_of lot (posted_physical_quantities container db).by_lot
          ≡ net_of_lot lot (posted_lines container db.outwards))
      × (posted_total (posted_physical_quantities container db)
          ≡ net_of_all (posted_lines container db.outwards))
unfolding posted_physical_quantities posted_of posted_total
posted_physical_quantities-net container db =
    let lines = posted_lines container db.outwards in
    (
      λ lot. rw (add_lines-by_lot lot lines nothing_posted) (omega int_laws),
      rw (add_lines-total lines nothing_posted) (omega int_laws),
    )

remaining_after-ok :
    (inward posted qty left : ℤ)
    → remaining_after inward posted qty ≡ ok left
    → (posted +ℤ qty ≤ℤ inward +ℤ tolerance) × (left ≡ inward -ℤ posted)
unfolding remaining_after
remaining_after-ok inward posted qty left h =
    elim (Bool-cases (ltb_ℤ (inward -ℤ posted +ℤ tolerance) qty)) [
      | inl e ↦ (let g = (rw (e, remaining_after) at h) in absurd (cc))
      | inr e ↦
          let g = (rw (e, remaining_after) at h) in
          let le = ltb_ℤ-false (inward -ℤ posted +ℤ tolerance) qty e in (omega (int_laws, le), (cc))
    ]

-- Where the check of a mapped lot passes, the lot is on the Container in that unit, and the lot's
-- posted lines and the new quantity together exceed its inward quantity by no more than 1e-9.
pub assert_mapped_lot_capacity-net :
    (container lot : ℕ) (qty left : ℤ) (uom : Ref) (db : Db)
    → assert_mapped_lot_capacity container lot qty uom db ≡ ok left
    → (l : Lot) × (lot_of container lot db ≡ some l)
      × (uom ≡ l.uom)
      × (net_of_lot lot (posted_lines container db.outwards) +ℤ qty ≤ℤ l.inward_qty +ℤ tolerance)
unfolding assert_mapped_lot_capacity
assert_mapped_lot_capacity-net container lot qty left uom db h =
    elim (Option-cases (lot_of container lot db)) [
      | inl e ↦ (let g = (rw (e, assert_mapped_lot_capacity) at h) in absurd (cc))
      | inr (l, e) ↦ elim (Bool-cases (uom =? l.uom)) [
        | inr u ↦ (let g = (rw (e, u, assert_mapped_lot_capacity) at h) in absurd (cc))
        | inl u ↦
            let g = (rw (e, u, assert_mapped_lot_capacity) at h) in
            let net = (posted_physical_quantities-net container db).0 lot in
            (l, e, =?-eq uom l.uom u, rw (← net) (remaining_after-ok l.inward_qty _ qty left g).0)
      ]
    ]

-- Where the check of a Container passes, all its posted lines and the new quantity together exceed
-- its inward quantity by no more than 1e-9.
pub assert_container_capacity-net :
    (container : ℕ) (qty left : ℤ) (uoms : List Ref) (db : Db)
    → assert_container_capacity container qty uoms db ≡ ok left
    → (c : Container) × (find container_key container db.containers ≡ some c)
      × (net_of_all (posted_lines container db.outwards) +ℤ qty ≤ℤ c.inward_qty +ℤ tolerance)
unfolding assert_container_capacity
assert_container_capacity-net container qty left uoms db h =
    elim (Option-cases (find container_key container db.containers)) [
      | inl e ↦ (let g = (rw (e, assert_container_capacity) at h) in absurd (cc))
      | inr (c, e) ↦ elim (Bool-cases (any (λ u. not (u =? c.uom)) uoms)) [
        | inl u ↦ (let g = (rw (e, u, assert_container_capacity) at h) in absurd (cc))
        | inr u ↦
            let g = (rw (e, u, assert_container_capacity) at h) in
            let net = (posted_physical_quantities-net container db).1 in
            (c, e, rw (← net) (remaining_after-ok c.inward_qty _ qty left g).0)
      ]
    ]
