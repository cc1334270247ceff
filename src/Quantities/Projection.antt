-- ===== src/Quantities/Projection.antt =====
-- quantity_assertion_service.py: the comparison of what is declared with what came in.
use fresko_universe.Data.{QuantityAssertion, Digests, Basis}
use fresko_universe.Db.{throw_if, ◌then_check◌, container_key, after, Db, Result, ok, Error}
use fresko_universe.Outwards.{container_exists}
use fresko_universe.Prelude.{
  ℕ, Bool, not, Option, none, some, if◌then◌else◌, Ref, is_set, ◌=?◌, find,
}
use fresko_universe.Prelude.Int.{ℤ}
use fresko_universe.Quantities.Variance.{latest, variance_of_key}

-- What quantity_reconciliation_projection answers.
pub data Projection : Type 0 where
  no_declared : Projection
  no_operating : (declared : ℕ) → Projection
  compared :
      (declared : ℕ) (operating uom : Ref) (declared_quantity operating_quantity : ℤ)
      (legacy : Bool) (exception : Ref)
      → Projection

-- The operating quantity, with the assertion's name; of the Container itself, where no operating
-- assertion is active and its unit is the declared one's.
unfoldable pub operating_of : ℕ → Ref → Db → Option (Ref × ℤ)
unfolding latest find
operating_of container uom db = elim (latest container Basis.operating_inward uom db) [
  | some o ↦ elim o.quantity [ none ↦ none | some q ↦ some (some o.name, q) ]
  | none ↦
      if is_set (latest container Basis.operating_inward none db)
      then none
      else (elim (find container_key container db.containers) [
        | none ↦ none
        | some c ↦ if c.uom =? uom then some (none, c.inward_qty) else none
      ])
]

unfoldable pub exception_of_pair : Digests → ℕ → ℕ → Ref → Db → Ref
unfolding variance_of_key
exception_of_pair g container declared none db = none
exception_of_pair g container declared (some operating) db =
    elim (variance_of_key (g.variance_key container declared operating) db) [
      | none ↦ none
      | some x ↦ some x.name
    ]

unfoldable pub project_declared : Digests → ℕ → QuantityAssertion → ℤ → Db → Projection
unfolding operating_of exception_of_pair
project_declared g container d dq db = elim (operating_of container d.uom db) [
  | none ↦ no_operating d.name
  | some (o, oq) ↦
      compared d.name o d.uom dq oq (not (is_set o)) (exception_of_pair g container d.name o db)
]

-- quantity_reconciliation_projection; `readable` is Frappe's permission on the Container
unfoldable pub quantity_reconciliation_projection : Digests → Bool → ℕ → Db → Result Projection
unfolding container_exists latest project_declared
quantity_reconciliation_projection g readable container db =
    after (container_exists container db then_check throw_if (not readable) Error.permission_denied)
      (elim (latest container Basis.declared_shipping none db) [
        | none ↦ ok no_declared
        | some d ↦ elim d.quantity [
          | none ↦ ok no_declared
          | some dq ↦ ok (project_declared g container d dq db)
        ]
      ])
