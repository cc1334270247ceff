-- ===== src/Deals/RateOutcome.antt =====
-- What each branch of apply_rate_rules leaves of the Deal.
use fresko_universe.Ats.{available_to_sell}
use fresko_universe.Ats.Capacity.{available_to_sell-Fits, Fits}
use fresko_universe.Data.{Deal, Flags, DealStatus, Severity, ExceptionType}
use fresko_universe.Db.{deal_key, bind-ok, query-ok, Db, ok}
use fresko_universe.DealDoc.{save_deal}
use fresko_universe.DealDoc.Evolves.{find-save_deal}
use fresko_universe.Deals.{to_approval, auto_approve, rate_accepted, rate_branches, null_fields}
use fresko_universe.Exceptions.{open_exception, ensure_open_exception, maybe_open_buyer_unresolved}
use fresko_universe.Prelude.{
  ◌≡◌, refl, ◌⊎◌, inl, inr, true, Option, some, arith, Bool-cases, put, put-found,
}
use fresko_universe.Prelude.Int.{◌≤ℤ◌, ltb_ℤ, ltb_ℤ-false, ℤ}
use fresko_universe.RateRules.{policy_resolved, rate_in_band}

-- The rate was accepted, and the quantity fits.
pub record Accepted (d r : Deal) (db : Db) : Type 0 where
  pub is : r ≡ auto_approve d
  pub in_band : rate_in_band d.proposed_rate d.rate_floor d.rate_ceiling ≡ true
  pub fits : Fits d.container d.lot_no (some d.name) d.qty db

rate_accepted-ok :
    (d r : Deal) (flags : Flags) (ats : ℤ) (db mid : Db)
    → rate_accepted d ats db ≡ ok ((flags, r), mid)
    → (r ≡ to_approval d) ⊎ ((r ≡ auto_approve d) × (d.qty ≤ℤ ats))
unfolding rate_accepted
rate_accepted-ok d r flags ats db mid h = elim (Bool-cases (ltb_ℤ ats d.qty)) [
  | inl e ↦
      let g = (rw (e, rate_accepted) at h) in
      let (x, m, e1, h1) =
        bind-ok (open_exception (to_approval d) ExceptionType.stock_shortfall Severity.material) _
          db mid (flags, r) g in
      inl (cc)
  | inr e ↦
      let g = (rw (e, rate_accepted) at h) in
      let (x, m, e1, h1) =
        bind-ok (maybe_open_buyer_unresolved (auto_approve d)) _ db mid (flags, r) g in
      inr ((cc), ltb_ℤ-false ats d.qty e)
]

pub rate_branches-ok :
    (d r : Deal) (flags : Flags) (db mid : Db)
    → rate_branches d db ≡ ok ((flags, r), mid)
    → (r ≡ to_approval d) ⊎ Accepted d r db
unfolding rate_branches
rate_branches-ok d r flags db mid h =
    elim (Bool-cases (policy_resolved d.rate_floor d.rate_ceiling)) [
      | inr e ↦
          let g = (rw (e, rate_branches) at h) in
          let (x, m, e1, h1) =
            bind-ok
              (open_exception (to_approval d) ExceptionType.rate_policy_missing Severity.material) _
              db mid (flags, r) g in
          inl (cc)
      | inl e ↦ elim (Bool-cases (rate_in_band d.proposed_rate d.rate_floor d.rate_ceiling)) [
        | inr b ↦
            let g = (rw (e, b, rate_branches) at h) in
            let (x, m, e1, h1) =
              bind-ok
                (ensure_open_exception (to_approval d) ExceptionType.rate_floor_breach
                  Severity.material)
                _ db mid (flags, r) g in
            inl (cc)
        | inl b ↦
            let g = (rw (e, b, rate_branches) at h) in
            let (ats, e1, h1) =
              query-ok (available_to_sell d.container d.lot_no (some d.name)) _ db mid (flags, r)
                g in
            elim (rate_accepted-ok d r flags ats db mid h1) [
              | inl q ↦ inl q
              | inr (q, le) ↦ inr (record {
                is = q;
                in_band = b;
                fits = available_to_sell-Fits d.container d.lot_no (some d.name) d.qty ats db e1 le;
              })
            ]
      ]
    ]

pub in_band_resolved :
    (rate : ℤ) (floor ceiling : Option ℤ)
    → rate_in_band rate floor ceiling ≡ true
    → policy_resolved floor ceiling ≡ true
unfolding rate_in_band
in_band_resolved rate floor ceiling h = elim (Bool-cases (policy_resolved floor ceiling)) [
  | inl e ↦ e
  | inr e ↦ let g = (rw (e, rate_in_band) at h) in absurd (cc)
]

-- A Deal with a resolved band that is not in Approval Required keeps its rates.
pub null_fields-auto :
    (d : Deal)
    → policy_resolved d.rate_floor d.rate_ceiling ≡ true
    → d.status ≡ DealStatus.auto_approved
    → null_fields d ≡ d
unfolding null_fields
null_fields-auto d e s = rw (e, s) refl

pub not_to_approval :
    (d r saved : Deal)
    → r ≡ to_approval d
    → saved.status ≡ r.status
    → (null_fields saved).status ≡ DealStatus.auto_approved
    → ⊥
unfolding null_fields to_approval
not_to_approval d r saved e s h = ground arith

-- Writing the saved Deal again leaves the table as it is.
pub rewrite_saved :
    (flags : Flags) (r saved : Deal) (mid db : Db)
    → save_deal flags r mid ≡ ok (saved, db)
    → record db { deals = put deal_key saved db.deals } ≡ db
rewrite_saved flags r saved mid db h =
    rw (put-found deal_key saved db.deals (find-save_deal flags r saved mid db h)) refl
