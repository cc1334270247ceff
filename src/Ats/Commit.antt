-- ===== src/Ats/Commit.antt =====
-- Writing the Deal that was checked: what is then reserved still fits.
use fresko_universe.Ats.{
  commercial_qty_for_ats, lot_matches, counts, reserved_by, lot_of, container_operating_capacity,
}
use fresko_universe.Ats.Capacity.{Fits}
use fresko_universe.Ats.Reserved.{reserved_qty-put}
use fresko_universe.Data.{Deal, Container, QuantityAssertion, Flags, DealStatus}
use fresko_universe.Db.{deal_key, Db, ok}
use fresko_universe.Db.Frame.{SameStock}
use fresko_universe.DealDoc.{save_deal}
use fresko_universe.DealDoc.Kept.{SameCore}
use fresko_universe.DealDoc.Passed.{Validated-SameCore, save_deal-ok}
use fresko_universe.Policy.{reduces_ats}
use fresko_universe.Prelude.{
  ℕ, ◌≡◌, refl, sym, ap, ◌∙◌, subst, ◌⊎◌, inl, inr, true, Option, none, some, List, Ref, ==-refl,
  put, NamesDiffer,
}
use fresko_universe.Prelude.Int.{ℤ, int_laws, pos}

capacity_of_tables :
    (db : Db) {containers : List Container} {assertions : List QuantityAssertion} (container : ℕ)
    (uom : Ref)
    → db.containers ≡ containers
    → db.assertions ≡ assertions
    → container_operating_capacity container uom db
      ≡ container_operating_capacity container uom
          (record db { containers = containers; assertions = assertions })
unfolding container_operating_capacity
capacity_of_tables db container uom p q = λ i.
    container_operating_capacity container uom (record db { containers = p i; assertions = q i })

lot_of_tables :
    (db : Db) {containers : List Container} (container lot : ℕ)
    → db.containers ≡ containers
    → lot_of container lot db ≡ lot_of container lot (record db { containers = containers })
unfolding lot_of
lot_of_tables db container lot p = λ i. lot_of container lot (record db { containers = p i })

module _ {db db' : Db} (same : SameStock db db') where
  same-capacity :
      (container : ℕ) (uom : Ref)
      → container_operating_capacity container uom db
        ≡ container_operating_capacity container uom db'
  unfolding container_operating_capacity
  same-capacity container uom =
      capacity_of_tables db container uom (sym same.containers) (sym same.assertions)

  same-lot : (container lot : ℕ) → lot_of container lot db ≡ lot_of container lot db'
  unfolding lot_of
  same-lot container lot = lot_of_tables db container lot (sym same.containers)

  -- What fits still does when other tables are written.
  pub Fits-SameStock :
      (container : ℕ) (lot : Ref) (exclude : Option ℕ) (qty : ℤ)
      → Fits container lot exclude qty db
      → Fits container lot exclude qty db'
  Fits-SameStock container lot exclude qty f = record {
    number = f.number;
    numbered = f.numbered;
    row = f.row;
    found = sym (same-lot container f.number) ∙ f.found;
    capacity = f.capacity;
    resolved = sym (same-capacity container f.row.uom) ∙ f.resolved;
    in_lot = rw same.deals f.in_lot;
    in_container = rw same.deals f.in_container;
  }

-- A Deal in the status Approved or Auto Approved.
abbrev pub IsApproved : Deal → Type 0
IsApproved d = (d.status ≡ DealStatus.approved) ⊎ (d.status ≡ DealStatus.auto_approved)

reserved_by-approved :
    (d : Deal) (lot : Option ℕ)
    → IsApproved d
    → lot_matches lot d ≡ true
    → reserved_by d.container lot d ≡ d.qty
unfolding reserved_by counts commercial_qty_for_ats reduces_ats
reserved_by-approved d lot (inl e) m = rw (==-refl, m, e) refl
reserved_by-approved d lot (inr e) m = rw (==-refl, m, e) refl

lot_matches_self : (d : Deal) (n : ℕ) → d.lot_no ≡ some n → lot_matches (some n) d ≡ true
lot_matches_self d n e = rw e (==-refl n)

-- After the Deal is written as approved, all that is reserved of its lot and of its Container,
-- its own quantity included, is within the lot's inward quantity and the Container's capacity.
pub Fits-put :
    (d : Deal) (db : Db)
    → NamesDiffer deal_key db.deals
    → IsApproved d
    → Fits d.container d.lot_no (some d.name) d.qty db
    → Fits d.container d.lot_no none (pos 0) (record db { deals = put deal_key d db.deals })
unfolding container_operating_capacity lot_of
Fits-put d db nd ap f = record {
  number = f.number;
  numbered = f.numbered;
  row = f.row;
  found = f.found;
  capacity = f.capacity;
  resolved = f.resolved;
  in_lot = rw (reserved_qty-put d.container (some f.number) d db.deals nd) (
      rw (reserved_by-approved d (some f.number) ap (lot_matches_self d f.number f.numbered))
        (omega (int_laws, f.in_lot)));
  in_container =
      rw (reserved_qty-put d.container none d db.deals nd)
        (rw (reserved_by-approved d none ap refl) (omega (int_laws, f.in_container)));
}

-- What fits, of the same Deal.
pub Fits-SameCore :
    (a b : Deal) (db : Db)
    → SameCore a b
    → Fits a.container a.lot_no (some a.name) a.qty db
    → Fits b.container b.lot_no (some b.name) b.qty db
Fits-SameCore a b db same f =
    subst (λ c. Fits c b.lot_no (some b.name) b.qty db) (sym same.container)
      (subst (λ l. Fits a.container l (some b.name) b.qty db) (sym same.lot_no)
        (subst (λ n. Fits a.container a.lot_no (some n) b.qty db) (sym same.name)
          (subst (λ q. Fits a.container a.lot_no (some a.name) q db) (sym same.qty) f)))

-- After the save of a Deal that fits, as Approved or Auto Approved, the lot and the Container of
-- the stored Deal are not oversold, with all that is reserved of them counted (Deal names being
-- distinct).
pub Fits-save :
    (flags : Flags) (d d' : Deal) (db db' : Db)
    → NamesDiffer deal_key db.deals
    → IsApproved d
    → Fits d.container d.lot_no (some d.name) d.qty db
    → save_deal flags d db ≡ ok (d', db')
    → Fits d'.container d'.lot_no none (pos 0) db'
Fits-save flags d d' db db' nd ap f h =
    let (v, left) = save_deal-ok flags d d' db db' h in
    let same = Validated-SameCore v in
    subst (Fits d'.container d'.lot_no none (pos 0)) left (
      Fits-put d' db nd
        (subst (λ s. (s ≡ DealStatus.approved) ⊎ (s ≡ DealStatus.auto_approved)) (sym same.status)
          ap)
        (Fits-SameCore d d' db same f))
