-- ===== src/Revisions/Fields.antt =====
-- A Revision holds the old and the new value of a Deal's field as texts.
use fresko_universe.Data.{Deal, Revision, FieldName}
use fresko_universe.Db.{Check, throw_if, Error}
use fresko_universe.Prelude.{ℕ, ◌≡◌, Bool, true, false, not, Option, none, some, Ref, ◌=?◌}
use fresko_universe.Prelude.Int.{eqb_ℤ, ℤ, pos}

-- Python's `str` of a number, and Frappe's `flt` of a text.
pub record Texts : Type 0 where
  pub str : ℤ → ℕ
  pub flt : ℕ → ℤ
  pub flt-str : (z : ℤ) → flt (str z) ≡ z

-- `flt`, of a text that may be missing
unfoldable pub flt_of : Texts → Ref → ℤ
flt_of t none = pos 0
flt_of t (some x) = t.flt x

unfoldable pub str_of : Texts → Option ℤ → Ref
str_of t none = none
str_of t (some z) = some (t.str z)

-- `str(deal.get(fieldname))`, empty for None
unfoldable pub field_text : Texts → FieldName → Deal → Ref
unfolding str_of
field_text t FieldName.approved_rate d = str_of t d.approved_rate
field_text t FieldName.qty d = some (t.str d.qty)
field_text t FieldName.lot_no d = d.lot_no
field_text t FieldName.container_lot d = d.container_lot
field_text t FieldName.customer d = d.customer
field_text t FieldName.item d = d.item
field_text t FieldName.count_size d = d.count_size
field_text t FieldName.ineligible d = none

-- `deal.set(fieldname, new_value)`, a number for approved_rate and qty
unfoldable pub set_field : Texts → FieldName → Ref → Deal → Deal
unfolding flt_of
set_field t FieldName.approved_rate v d = record d { approved_rate = some (flt_of t v) }
set_field t FieldName.qty v d = record d { qty = flt_of t v }
set_field t FieldName.lot_no v d = record d { lot_no = v }
set_field t FieldName.container_lot v d = record d { container_lot = v }
set_field t FieldName.customer v d = record d { customer = v }
set_field t FieldName.item v d = record d { item = v }
set_field t FieldName.count_size v d = record d { count_size = v }
set_field t FieldName.ineligible v d = d

unfoldable pub rate_value : Option ℤ → ℤ
rate_value none = pos 0
rate_value (some z) = z

-- _assert_revision_old_value_matches_deal
unfoldable pub assert_old_value_matches : Texts → Deal → Revision → Check
unfolding flt_of field_text rate_value
assert_old_value_matches t d r = elim r.fieldname [
  | FieldName.approved_rate ↦
      throw_if (not (eqb_ℤ (rate_value d.approved_rate) (flt_of t r.old_value)))
        Error.revision_stale
  | FieldName.qty ↦ throw_if (not (eqb_ℤ d.qty (flt_of t r.old_value))) Error.revision_stale
  | _ ↦ throw_if (not (field_text t r.fieldname d =? r.old_value)) Error.revision_stale
]

-- `fieldname in ("qty", "lot_no", "container_lot")`
unfoldable pub needs_ats : FieldName → Bool
needs_ats FieldName.qty = true
needs_ats FieldName.lot_no = true
needs_ats FieldName.container_lot = true
needs_ats _ = false

unfoldable pub is_rate : FieldName → Bool
is_rate FieldName.approved_rate = true
is_rate _ = false

unfoldable pub is_customer : FieldName → Bool
is_customer FieldName.customer = true
is_customer _ = false

-- The lot and the quantity that the available quantity is checked for.
unfoldable pub probe_lot : Revision → Deal → Ref
probe_lot r d = elim r.fieldname [ FieldName.lot_no ↦ r.new_value | _ ↦ d.lot_no ]

unfoldable pub probe_qty : Texts → Revision → Deal → ℤ
unfolding flt_of
probe_qty t r d = elim r.fieldname [ FieldName.qty ↦ flt_of t r.new_value | _ ↦ d.qty ]
