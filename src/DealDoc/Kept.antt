-- ===== src/DealDoc/Kept.antt =====
-- What a successful save stores: the Deal that it was given, with defaults filled in, and every
-- check passed.
use fresko_universe.Ats.{lot_of}
use fresko_universe.Data.{Deal, Lot, Container, Flags}
use fresko_universe.Db.{Check, pass, container_key, Db, Result, ok, err}
use fresko_universe.DealDoc.{
  with_defaults, fetch_defaults_from_container, validate_qty, with_lot, resolve_lot,
  validate_lot_belongs_to_container, compute_amount, validate_rest, passing, and_then, validate,
}
use fresko_universe.Prelude.{
  ◌≡◌, refl, sym, subst, inl, inr, Option, none, some, arith, Ref, Option-cases, find,
}

-- The fields that filling in defaults leaves alone.
pub record SameCore (a b : Deal) : Type 0 where
  pub name : b.name ≡ a.name
  pub owner : b.owner ≡ a.owner
  pub salesperson_user : b.salesperson_user ≡ a.salesperson_user
  pub status : b.status ≡ a.status
  pub container : b.container ≡ a.container
  pub lot_no : b.lot_no ≡ a.lot_no
  pub customer : b.customer ≡ a.customer
  pub qty : b.qty ≡ a.qty
  pub dispatched_qty : b.dispatched_qty ≡ a.dispatched_qty
  pub proposed_rate : b.proposed_rate ≡ a.proposed_rate
  pub approved_rate : b.approved_rate ≡ a.approved_rate
  pub rate_floor : b.rate_floor ≡ a.rate_floor
  pub rate_ceiling : b.rate_ceiling ≡ a.rate_ceiling
  pub approval : b.approval ≡ a.approval

-- The equations hold by computation for a Deal that differs in other fields.
SameCore-with_defaults : (c : Container) (d : Deal) → SameCore d (with_defaults c d)
unfolding with_defaults
SameCore-with_defaults c d = ground arith

SameCore-with_lot : (l : Lot) (d : Deal) → SameCore d (with_lot l d)
unfolding with_lot
SameCore-with_lot l d = ground arith

SameCore-trans : (a b c : Deal) → SameCore a b → SameCore b c → SameCore a c
SameCore-trans a b c p q = ground arith

pub fetch-SameCore :
    (db : Db) (a b : Deal) → fetch_defaults_from_container db a ≡ ok b → SameCore a b
unfolding fetch_defaults_from_container
fetch-SameCore db a b h = elim (Option-cases (find container_key a.container db.containers)) [
  | inl e ↦ let g = (rw (e, fetch_defaults_from_container) at h) in absurd (cc)
  | inr (c, e) ↦
      let g = (rw (e, fetch_defaults_from_container) at h) in
      let q : with_defaults c a ≡ b = cc in subst (SameCore a) q (SameCore-with_defaults c a)
]

lot-SameCore : (db : Db) (lot : Ref) (a b : Deal) → resolve_lot db lot a ≡ ok b → SameCore a b
unfolding resolve_lot
lot-SameCore db none a b h = let q : a ≡ b = cc in subst (SameCore a) q (ground arith)
lot-SameCore db (some lot) a b h = elim (Option-cases (lot_of a.container lot db)) [
  | inl e ↦ let g = (rw (e, resolve_lot) at h) in absurd (cc)
  | inr (l, e) ↦
      let g = (rw (e, resolve_lot) at h) in
      let q : with_lot l a ≡ b = cc in subst (SameCore a) q (SameCore-with_lot l a)
]

-- `validate` stores `d'` for `d`: the checks passed on `before`, which is `d'` but for its amount.
pub record Validated (db : Db) (flags : Flags) (old : Option Deal) (d d' : Deal) : Type 0 where
  pub before : Deal
  pub stored : compute_amount before ≡ d'
  pub same : SameCore d before
  pub rest : validate_rest db flags old before ≡ pass

pub passing-ok : (c : Check) (a b : Deal) → passing c a ≡ ok b → (c ≡ pass) × (a ≡ b)
passing-ok (ok tt) a b h = (refl, (cc))
passing-ok (err e) a b h = cc

pub and_then-ok :
    (r : Result Deal) (f : Deal → Result Deal) (b : Deal)
    → and_then r f ≡ ok b
    → (a : Deal) × (r ≡ ok a) × (f a ≡ ok b)
and_then-ok (ok a) f b h = (a, refl, h)
and_then-ok (err e) f b h = cc

pub validate-Validated :
    (db : Db) (flags : Flags) (old : Option Deal) (d d' : Deal)
    → validate db flags old d ≡ ok d'
    → Validated db flags old d d'
unfolding validate
validate-Validated db flags old d d' h =
    let (d1, e1, h1) = and_then-ok (fetch_defaults_from_container db d) _ d' h in
    let (d2, e2, h2) = and_then-ok (passing (validate_qty d1) d1) _ d' h1 in
    let (d3, e3, h3) = and_then-ok (validate_lot_belongs_to_container db d2) _ d' h2 in
    let (p, q) = passing-ok (validate_rest db flags old d3) (compute_amount d3) d' h3 in
    let s12 = (passing-ok (validate_qty d1) d1 d2 e2).1 in
    record {
      before = d3;
      stored = q;
      same = SameCore-trans d d1 d3 (fetch-SameCore db d d1 e1) (
          subst (λ x. SameCore x d3) (sym s12)
            (lot-SameCore db d2.lot_no d2 d3 (unfold validate_lot_belongs_to_container in e3)));
      rest = p;
    }
