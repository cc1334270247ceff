-- ===== src/Deals/AutoApproval.antt =====
-- What apply_rate_rules leaves: a Deal that it approves is in its band and fits.
use fresko_universe.Access.{assert_can_work_on_deal}
use fresko_universe.Ats.Capacity.{Fits}
use fresko_universe.Ats.Commit.{Fits-SameStock, Fits-save}
use fresko_universe.Data.{Deal, Container, Session, Flags, is_status, DealStatus}
use fresko_universe.Db.{
  throw_if, deal_key, container_key, get_container, throw_if-pass, or_throw-ok, after_bind,
  after_query, after_check, Db, ok, Error,
}
use fresko_universe.Db.Frame.{ended, SameStock}
use fresko_universe.DealDoc.{save_deal}
use fresko_universe.DealDoc.Passed.{Validated-SameCore, save_deal-ok}
use fresko_universe.Deals.{
  locked_deal, snapshot, auto_approve, rate_branches, null_fields, apply_rate_rules,
}
use fresko_universe.Deals.Locked.{locked_deal-ok}
use fresko_universe.Deals.RateOutcome.{
  rate_branches-ok, in_band_resolved, null_fields-auto, not_to_approval, rewrite_saved, Accepted,
}
use fresko_universe.Deals.Untouched.{rate_branches-SameStock}
use fresko_universe.Policy.StatusPath.{is_status-eq}
use fresko_universe.Prelude.{
  ℕ, ◌≡◌, sym, ap, ◌∙◌, subst, inl, inr, true, not, none, some, not-false, find, put, NamesDiffer,
}
use fresko_universe.Prelude.Int.{pos}
use fresko_universe.RateRules.{Bands, resolve_rate_band, policy_resolved, rate_in_band}

-- What an auto-approval means: the Deal was Proposed; its proposed rate became the approved one
-- and is in the band that the Container gives for its lot and count size; and now its lot and its
-- Container are not oversold, with all that is reserved of them counted.
pub record AutoApproved (n : ℕ) (d : Deal) (db db' : Db) : Type 0 where
  pub old : Deal
  pub found : find deal_key n db.deals ≡ some old
  pub was_proposed : old.status ≡ DealStatus.proposed
  pub container : Container
  pub found_container : find container_key old.container db.containers ≡ some container
  pub in_band :
      rate_in_band old.proposed_rate
        (resolve_rate_band container old.lot_no old.count_size).0
        (resolve_rate_band container old.lot_no old.count_size).1
      ≡ true
  pub rate : d.approved_rate ≡ some old.proposed_rate
  pub not_oversold : Fits d.container d.lot_no none (pos 0) db'

module _ (n : ℕ) (d old : Deal) (c : Container) (db mid db' : Db) (flags : Flags)
    (rated saved : Deal) (nd : NamesDiffer deal_key db.deals) (same : SameStock db mid)
    (save : save_deal flags rated mid ≡ ok (saved, db'))
    (auto : (null_fields saved).status ≡ DealStatus.auto_approved) where
  saved-approved :
      (b : Bands)
      → Accepted (snapshot b old) rated db
      → (null_fields saved ≡ saved)
        × (saved.approved_rate ≡ some old.proposed_rate)
        × Fits saved.container saved.lot_no none (pos 0) db'
  unfolding snapshot auto_approve
  saved-approved b a =
      let v = (save_deal-ok flags rated saved mid db' save).0 in
      let core = Validated-SameCore v in
      let s : rated.status ≡ DealStatus.auto_approved = ap (λ (x : Deal). x.status) a.is in
      let r : rated.approved_rate ≡ some old.proposed_rate =
        ap (λ (x : Deal). x.approved_rate) a.is in
      let f : rated.rate_floor ≡ b.0 = ap (λ (x : Deal). x.rate_floor) a.is in
      let g : rated.rate_ceiling ≡ b.1 = ap (λ (x : Deal). x.rate_ceiling) a.is in
      let resolved : policy_resolved saved.rate_floor saved.rate_ceiling ≡ true =
        rw (core.rate_floor ∙ f)
          (rw (core.rate_ceiling ∙ g) (in_band_resolved old.proposed_rate b.0 b.1 a.in_band)) in
      let fits : Fits rated.container rated.lot_no (some rated.name) rated.qty mid =
        rw a.is (Fits-SameStock same _ _ _ _ a.fits) in
      (
        null_fields-auto saved resolved (core.status ∙ s),
        core.approved_rate ∙ r,
        Fits-save flags rated saved mid db' (rw same.deals nd) (inr s) fits save,
      )

approved_end :
    (n : ℕ) (d old : Deal) (c : Container) (db m0 mid db1 db' : Db) (flags : Flags)
    (rated saved : Deal)
    → NamesDiffer deal_key db.deals
    → db ≡ m0
    → find deal_key n db.deals ≡ some old
    → old.status ≡ DealStatus.proposed
    → find container_key old.container m0.containers ≡ some c
    → rate_branches (snapshot (resolve_rate_band c old.lot_no old.count_size) old) m0
      ≡ ok ((flags, rated), mid)
    → save_deal flags rated mid ≡ ok (saved, db1)
    → null_fields saved ≡ d
    → record db1 { deals = put deal_key (null_fields saved) db1.deals } ≡ db'
    → d.status ≡ DealStatus.auto_approved
    → AutoApproved n d db db'
unfolding snapshot
approved_end n d old c db m0 mid db1 db' flags rated saved nd same0 found proposed fc e4 e5 is left
      auto =
    let b = resolve_rate_band c old.lot_no old.count_size in
    let auto' : (null_fields saved).status ≡ DealStatus.auto_approved =
      ap (λ (x : Deal). x.status) is ∙ auto in
    let same =
      ended (rate_branches (snapshot b old)) m0 mid (flags, rated)
        (rate_branches-SameStock (snapshot b old)) e4 in
    elim (rate_branches-ok (snapshot b old) rated flags m0 mid e4) [
      | inl t ↦ absurd (
          not_to_approval (snapshot b old) rated saved t
            (Validated-SameCore (save_deal-ok flags rated saved mid db1 e5).0).status auto')
      | inr a ↦
          let (kept, rate, fits) =
            saved-approved n d old c m0 mid db1 flags rated saved
              (subst (λ (x : Db). NamesDiffer deal_key x.deals) same0 nd) same e5 auto' b a in
          let s : saved ≡ d = sym kept ∙ is in
          let end : db1 ≡ db' =
            sym (rewrite_saved flags rated saved mid db1 e5)
            ∙ ap (λ (x : Deal). record db1 { deals = put deal_key x db1.deals }) (sym kept)
            ∙ left in
          record {
            old = old;
            found = found;
            was_proposed = proposed;
            container = c;
            found_container =
                subst (λ (x : Db). find container_key old.container x.containers ≡ some c)
                  (sym same0) fc;
            in_band = a.in_band;
            rate = subst (λ (x : Deal). x.approved_rate ≡ some old.proposed_rate) s rate;
            not_oversold =
                subst (λ (x : Deal). Fits x.container x.lot_no none (pos 0) db') s
                  (subst (Fits saved.container saved.lot_no none (pos 0)) end fits);
          }
    ]

-- Where apply_rate_rules leaves a Deal Auto Approved (Deal names being distinct), it was
-- Proposed, its proposed rate became the approved one and is in the band that the Container
-- gives, and neither its lot nor its Container is oversold.
pub apply_rate_rules-AutoApproved :
    (s : Session) (before : Db) (n : ℕ) (d : Deal) (db db' : Db)
    → NamesDiffer deal_key db.deals
    → apply_rate_rules s before n db ≡ ok (d, db')
    → d.status ≡ DealStatus.auto_approved
    → AutoApproved n d db db'
unfolding apply_rate_rules
apply_rate_rules-AutoApproved s before n d db db' nd h auto =
    after_bind (locked_deal before n (assert_can_work_on_deal s)) _ db db' d h λ old m0 e0 h0.
      after_check (λ _. assert_can_work_on_deal s old) _ m0 db' d h0
        λ e1 h1.
          after_check
            (λ _. throw_if (not (is_status old.status DealStatus.proposed)) Error.wrong_status) _ m0
            db' d h1
            λ e2 h2. after_query (get_container old.container) _ m0 db' d h2 λ c e3 h3.
              after_bind
                (rate_branches (snapshot (resolve_rate_band c old.lot_no old.count_size) old)) _ m0
                db' d h3
                λ fr mid e4 h4. after_bind (save_deal fr.0 fr.1) _ mid db' d h4 λ saved db1 e5 h5.
                  let is : null_fields saved ≡ d = cc in
                  let left : record db1 { deals = put deal_key (null_fields saved) db1.deals }
                      ≡ db' =
                    cc in
                  let (same0, found) =
                    locked_deal-ok before db m0 n (assert_can_work_on_deal s) old e0 in
                  approved_end n d old c db m0 mid db1 db' fr.0 fr.1 saved nd same0 found
                    (is_status-eq old.status DealStatus.proposed
                      (not-false _ (throw_if-pass _ Error.wrong_status e2)))
                    (or_throw-ok (find container_key old.container m0.containers) Error.not_found c
                      e3)
                    e4 e5 is left auto
