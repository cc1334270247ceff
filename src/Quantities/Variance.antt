-- ===== src/Quantities/Variance.antt =====
-- quantity_assertion_service.py: the latest assertions, and the variance between two of them.
use fresko_universe.Access.{assert_can_post_outward}
use fresko_universe.Data.{
  no_scope, QuantityAssertion, ExceptionDoc, Session, Digests, is_exception, is_basis, Severity,
  ExceptionStatus, ExceptionType, Basis,
}
use fresko_universe.Db.{M, ◌>>=◌, ◌>>◌, pure, reads, check, on_duplicate, Db, ok, err, Error}
use fresko_universe.ExceptionRules.{quantity_service, insert_exception}
use fresko_universe.Outwards.{container_exists}
use fresko_universe.Prelude.{
  ℕ, Bool, true, ◌&&◌, Option, none, some, List, [], ◌∷◌, leb, ◌==◌, if◌then◌else◌, Ref, ◌=?◌,
  find_by,
}
use fresko_universe.Prelude.Int.{◌-ℤ◌, eqb_ℤ, ℤ, pos}
use fresko_universe.Quantities.Document.{is_active_now}

-- The row comes before the other in the order "activated_at desc, creation desc": rows stand in
-- the order of creation.
unfoldable pub latest_of :
    (QuantityAssertion → Bool) → List QuantityAssertion → Option QuantityAssertion
latest_of p [] = none
latest_of p (a ∷ as_) =
    let rest = latest_of p as_ in
    if p a
    then (elim rest [
      | none ↦ some a
      | some b ↦ if leb a.activated_at b.activated_at then some b else some a
    ])
    else rest

-- No unit asked for, or this one.
abbrev pub unit_matches : Ref → QuantityAssertion → Bool
unit_matches none a = true
unit_matches (some u) a = a.uom =? some u

-- _latest
unfoldable pub latest : ℕ → Basis → Ref → Db → Option QuantityAssertion
unfolding latest_of
latest container basis uom db =
    latest_of
      (λ a.
        a.container == container && is_basis a.basis basis && is_active_now a && unit_matches uom a)
      db.assertions

-- Two assertions whose quantities are known.
pub record Pair : Type 0 where
  pub declared : ℕ
  pub operating : ℕ
  pub uom : Ref
  pub declared_quantity : ℤ
  pub operating_quantity : ℤ

unfoldable pub pair_of : QuantityAssertion → ℤ → Option QuantityAssertion → Option Pair
pair_of d dq none = none
pair_of d dq (some o) = elim o.quantity [
  | none ↦ none
  | some oq ↦ some (record {
    declared = d.name;
    operating = o.name;
    uom = d.uom;
    declared_quantity = dq;
    operating_quantity = oq;
  })
]

-- The DECLARED_SHIPPING assertion and the OPERATING_INWARD one in its unit, if both are known.
unfoldable pub current_pair : ℕ → Db → Option Pair
unfolding latest pair_of
current_pair container db = elim (latest container Basis.declared_shipping none db) [
  | none ↦ none
  | some d ↦ elim d.quantity [
    | none ↦ none
    | some dq ↦ pair_of d dq (latest container Basis.operating_inward d.uom db)
  ]
]

-- `Decimal(declared.quantity) - Decimal(operating.quantity)`
unfoldable pub variance_of : Pair → ℤ
variance_of p = p.declared_quantity -ℤ p.operating_quantity

-- The new Exception of _ensure_physical_variance.
unfoldable pub variance_exception : Digests → ℕ → Pair → ℕ → ExceptionDoc
unfolding variance_of
variance_exception g container p n = record {
  name = n;
  exception_type = ExceptionType.physical_variance;
  severity = Severity.material;
  status = ExceptionStatus.open_;
  deal = none;
  container = some container;
  collection = none;
  money_company = none;
  money_scope_key = none;
  commercial_scope_key = none;
  sale = none;
  scope = record no_scope {
    declared_quantity_assertion = some p.declared;
    operating_quantity_assertion = some p.operating;
    variance_quantity = some (variance_of p);
    variance_uom = p.uom;
    variance_key = some (g.variance_key container p.declared p.operating);
  };
}

-- The PHYSICAL_VARIANCE of that key.
unfoldable pub variance_of_key : ℕ → Db → Option ExceptionDoc
unfolding find_by
variance_of_key key db =
    find_by
      (λ x.
        x.variance_key =? some key && is_exception x.exception_type ExceptionType.physical_variance)
      db.exceptions

-- The Exception of that key, of any type.
unfoldable pub exception_of_key : ℕ → Db → Option ExceptionDoc
unfolding find_by
exception_of_key key db = find_by (λ x. x.variance_key =? some key) db.exceptions

-- What follows a key that is taken.
unfoldable pub taken_variance : ℕ → M Ref
unfolding exception_of_key
taken_variance key = reads λ db. elim (exception_of_key key db) [
  | none ↦ err Error.unique_violation
  | some x ↦ ok (some x.name)
]

unfoldable pub open_variance : Digests → ℕ → Pair → Option ExceptionDoc → M Ref
unfolding on_duplicate insert_exception variance_exception taken_variance
open_variance g container p (some x) = pure (some x.name)
open_variance g container p none =
    on_duplicate
      (do
        x ← insert_exception quantity_service (variance_exception g container p)
        pure (some x.name))
      (taken_variance (g.variance_key container p.declared p.operating))

-- _ensure_physical_variance, for the pair that there is
unfoldable pub ensure_variance_of : Digests → ℕ → Option Pair → M Ref
unfolding variance_of variance_of_key open_variance
ensure_variance_of g container none = pure none
ensure_variance_of g container (some p) = if eqb_ℤ (variance_of p) (pos 0) then pure none else (do
  old ← reads λ db. ok (variance_of_key (g.variance_key container p.declared p.operating) db)
  open_variance g container p old)

-- _ensure_physical_variance
unfoldable pub ensure_variance : Digests → ℕ → M Ref
unfolding current_pair ensure_variance_of
ensure_variance g container = do
  p ← reads λ db. ok (current_pair container db)
  ensure_variance_of g container p

-- ensure_physical_variance
unfoldable pub ensure_physical_variance : Digests → Session → ℕ → M Ref
unfolding assert_can_post_outward container_exists ensure_variance
ensure_physical_variance g s container = do
  check (assert_can_post_outward s)
  reads (container_exists container)
  ensure_variance g container
