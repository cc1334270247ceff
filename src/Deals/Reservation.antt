-- ===== src/Deals/Reservation.antt =====
-- What a dispatch does to the quantity that the Deal reserves.
use fresko_universe.Ats.{commercial_qty_for_ats}
use fresko_universe.Data.{Deal}
use fresko_universe.Deals.{dispatch_to}
use fresko_universe.Prelude.{◌≡◌, refl, inl, inr, true, false, arith, Bool-cases}
use fresko_universe.Prelude.Int.{
  ◌+ℤ◌, ◌-ℤ◌, ltb_ℤ, leb_ℤ, max_ℤ, ltb_ℤ-true, leb_ℤ-true, ℤ, int_laws, pos,
}

partial_reserves : (qty q : ℤ) → ltb_ℤ q qty ≡ true → max_ℤ (qty -ℤ q) (pos 0) +ℤ q ≡ qty
unfolding max_ℤ
partial_reserves qty q h = elim (Bool-cases (leb_ℤ (qty -ℤ q) (pos 0))) [
  | inl e ↦
      let le = leb_ℤ-true (qty -ℤ q) (pos 0) e in
      let lt = ltb_ℤ-true q qty h in absurd (omega (int_laws, le, lt))
  | inr e ↦ rw e (omega int_laws)
]

not_ltb : (a b : ℤ) → leb_ℤ a b ≡ true → ltb_ℤ b a ≡ false
not_ltb a b h = ground arith

-- Once a positive quantity is dispatched of a Deal: if it is less than the Deal's, what the Deal
-- then reserves is the rest; if it is not less, the Deal reserves all of its quantity.
pub dispatch_to-reserved :
    (d : Deal) (q : ℤ)
    → ltb_ℤ (pos 0) q ≡ true
    → (ltb_ℤ q d.qty ≡ true → commercial_qty_for_ats (dispatch_to q d) +ℤ q ≡ d.qty)
      × (leb_ℤ d.qty q ≡ true → commercial_qty_for_ats (dispatch_to q d) ≡ d.qty)
unfolding dispatch_to commercial_qty_for_ats
dispatch_to-reserved d q positive = (
  λ part. rw (positive, part) (partial_reserves d.qty q part),
  λ whole. rw (positive, not_ltb d.qty q whole, whole) refl,
)
