-- ===== src/ExceptionRules/Scope.antt =====
-- The checks of FreskoException.validate. `old` is the stored row, none for a new one.
use fresko_universe.Data.{
  LedgerScope, ExceptionDoc, Collection, ExceptionFlags, is_exception, ExceptionType,
}
use fresko_universe.Db.{Check, pass, throw_if, ◌then_check◌, Db, err, Error}
use fresko_universe.DealDoc.{key_changed}
use fresko_universe.Prelude.{
  Bool, true, false, ◌&&◌, ◌||◌, not, Option, none, some, if◌then◌else◌, Ref, is_set, ◌=?◌, find,
}
use fresko_universe.Prelude.Int.{eqb_ℤ, ℤ, pos}

abbrev pub is_money_type : ExceptionType → Bool
is_money_type ExceptionType.money_unallocated = true
is_money_type ExceptionType.bank_pending = true
is_money_type ExceptionType.receipt_amount_unknown = true
is_money_type ExceptionType.receipt_direction_unknown = true
is_money_type _ = false

-- commercial_types
abbrev pub is_commercial_type : ExceptionType → Bool
is_commercial_type ExceptionType.alias_unresolved = true
is_commercial_type ExceptionType.alias_conflict = true
is_commercial_type ExceptionType.rate_unknown = true
is_commercial_type ExceptionType.rate_evidence_missing = true
is_commercial_type ExceptionType.price_bucket_unallocated = true
is_commercial_type ExceptionType.lot_unknown = true
is_commercial_type ExceptionType.party_unknown = true
is_commercial_type ExceptionType.movement_time_unknown = true
is_commercial_type ExceptionType.sale_without_outward = true
is_commercial_type ExceptionType.outward_without_sale = true
is_commercial_type ExceptionType.allocation_overdraw = true
is_commercial_type ExceptionType.idempotency_payload_conflict = true
is_commercial_type ExceptionType.concurrent_state_conflict = true
is_commercial_type _ = false

-- outward_exception_types
abbrev pub is_outward_type : ExceptionType → Bool
is_outward_type ExceptionType.outward_unpriced = true
is_outward_type ExceptionType.outward_without_deal = true
is_outward_type ExceptionType.lot_unresolved = true
is_outward_type ExceptionType.duplicate_gatepass = true
is_outward_type ExceptionType.physical_variance = true
is_outward_type _ = false

-- Two optional quantities are the same.
abbrev pub same_quantity : Option ℤ → Option ℤ → Bool
same_quantity none none = true
same_quantity (some a) (some b) = eqb_ℤ a b
same_quantity _ _ = false

-- The row is another Company's than its Collection.
unfoldable pub company_of_collection : ExceptionDoc → Db → Check
unfolding find
company_of_collection x db = elim x.collection [
  | none ↦ err Error.money_only
  | some n ↦ elim (find (λ (c : Collection). c.name) n db.collections) [
    | none ↦ err Error.not_found
    | some c ↦ throw_if (not (c.company =? x.money_company)) Error.company_changed
  ]
]

-- The fields of a money Exception that may not change.
unfoldable pub money_changed : ExceptionDoc → ExceptionDoc → Bool
money_changed old x =
    not (x.money_scope_key =? old.money_scope_key)
    || not (x.money_company =? old.money_company)
    || not (x.collection =? old.collection)
    || not (is_exception x.exception_type old.exception_type)

-- money_service.validate_money_exception, less `as_of_recorded_at`
unfoldable pub validate_money_exception :
    ExceptionFlags → Option ExceptionDoc → ExceptionDoc → Db → Check
unfolding company_of_collection money_changed
validate_money_exception flags old x db =
    throw_if (not flags.in_money) Error.money_only
    then_check throw_if
        (not (is_set x.money_scope_key && is_set x.money_company && is_set x.collection))
        Error.scope_required
    then_check throw_if
        (not (is_money_type x.exception_type) || is_set x.commercial_scope_key || is_set x.sale)
        Error.scope_forbidden
    then_check company_of_collection x db
    then_check (elim old [
      | none ↦ pass
      | some o ↦ throw_if (money_changed o x) Error.scope_immutable
    ])

-- The row is a money Exception.
unfoldable pub is_money : ExceptionDoc → Bool
is_money x =
    is_set x.money_scope_key
    || is_set x.collection
    || is_set x.money_company
    || is_money_type x.exception_type

-- The commercial scope key that is stored.
abbrev pub previous_key : Option ExceptionDoc → Ref
previous_key none = none
previous_key (some o) = o.commercial_scope_key

-- The fields of a commercial Exception that may not change.
unfoldable pub commercial_changed : ExceptionDoc → ExceptionDoc → Bool
commercial_changed old x =
    not (x.container =? old.container)
    || not (x.sale =? old.sale)
    || not (x.commercial_scope_key =? old.commercial_scope_key)
    || not (is_exception x.exception_type old.exception_type)

unfoldable pub commercial_frozen : Option ExceptionDoc → ExceptionDoc → Check
unfolding commercial_changed
commercial_frozen none x = pass
commercial_frozen (some o) x =
    throw_if (is_set o.commercial_scope_key && commercial_changed o x) Error.scope_immutable

-- _validate_commercial_scope
unfoldable pub validate_commercial_scope :
    ExceptionFlags → Option ExceptionDoc → ExceptionDoc → Check
unfolding commercial_frozen
validate_commercial_scope flags old x =
    if is_set x.sale
      || is_set x.commercial_scope_key
      || is_set (previous_key old)
      || is_commercial_type x.exception_type
    then throw_if (not flags.in_commercial) Error.commercial_only
      then_check throw_if (not (is_set x.container && is_set x.commercial_scope_key))
          Error.scope_required
      then_check commercial_frozen old x
    else pass

-- Some field of QUANTITY_SCOPE_FIELDS is set.
unfoldable pub has_quantity_links : LedgerScope → Bool
has_quantity_links l =
    is_set l.declared_quantity_assertion
    || is_set l.operating_quantity_assertion
    || is_set l.variance_quantity
    || is_set l.variance_uom
    || is_set l.variance_key

-- _validate_outward_scoped
unfoldable pub validate_outward_scoped : ExceptionFlags → ExceptionDoc → Check
validate_outward_scoped flags x =
    throw_if (not (is_set x.outward)) Error.outward_required
    then_check throw_if
        (is_exception x.exception_type ExceptionType.duplicate_gatepass
          && (not (is_set x.related_outward) || x.related_outward =? x.outward))
        Error.distinct_outwards_required
    then_check throw_if (not flags.in_outward_service) Error.service_only

-- The variance is a number that is not zero.
abbrev pub is_variance : Option ℤ → Bool
is_variance none = false
is_variance (some v) = not (eqb_ℤ v (pos 0))

-- _validate_quantity_scoped
unfoldable pub validate_quantity_scoped : ExceptionFlags → ExceptionDoc → Check
validate_quantity_scoped flags x =
    throw_if
      (not (is_set x.declared_quantity_assertion && is_set x.operating_quantity_assertion)
        || x.declared_quantity_assertion =? x.operating_quantity_assertion)
      Error.distinct_assertions_required
    then_check throw_if (not (is_set x.container)) Error.container_missing
    then_check throw_if (not (is_variance x.variance_quantity)) Error.variance_required
    then_check throw_if (not (is_set x.variance_uom && is_set x.variance_key)) Error.scope_required
    then_check throw_if (not flags.in_quantity_service) Error.service_only

-- _validate_scope
unfoldable pub validate_scope : ExceptionFlags → ExceptionDoc → Check
unfolding has_quantity_links validate_outward_scoped validate_quantity_scoped
validate_scope flags x =
    throw_if (is_set x.outward && has_quantity_links x.scope) Error.two_scopes
    then_check throw_if
        (has_quantity_links x.scope
          && not (is_exception x.exception_type ExceptionType.physical_variance))
        Error.scope_forbidden
    then_check (if is_exception x.exception_type ExceptionType.physical_variance
        then (if is_set x.outward
            then validate_outward_scoped flags x
            else if has_quantity_links x.scope
            then validate_quantity_scoped flags x
            else err Error.scope_required)
        else if is_outward_type x.exception_type
        then validate_outward_scoped flags x
        else pass)

-- A link that was set and is not what it was.
unfoldable pub link_changed : LedgerScope → LedgerScope → Bool
unfolding key_changed
link_changed old l =
    key_changed old.outward l.outward
    || key_changed old.related_outward l.related_outward
    || key_changed old.declared_quantity_assertion l.declared_quantity_assertion
    || key_changed old.operating_quantity_assertion l.operating_quantity_assertion
    || (not (same_quantity l.variance_quantity old.variance_quantity)
        && is_set old.variance_quantity)
    || key_changed old.variance_uom l.variance_uom
    || key_changed old.variance_key l.variance_key

-- _validate_immutability
unfoldable pub validate_immutability : Option ExceptionDoc → ExceptionDoc → Check
unfolding link_changed
validate_immutability none x = pass
validate_immutability (some old) x =
    throw_if (link_changed old.scope x.scope) Error.scope_immutable
    then_check throw_if (is_set old.variance_key && not (x.container =? old.container))
        Error.scope_immutable

-- FreskoException.validate
unfoldable pub validate_exception : ExceptionFlags → Option ExceptionDoc → ExceptionDoc → Db → Check
unfolding is_money validate_money_exception validate_commercial_scope validate_scope
    validate_immutability
validate_exception flags old x db =
    (if is_money x then validate_money_exception flags old x db else pass)
    then_check validate_commercial_scope flags old x
    then_check validate_scope flags x
    then_check validate_immutability old x

-- on_trash
unfoldable pub trash_exception : ExceptionDoc → Check
unfolding has_quantity_links
trash_exception x =
    throw_if (is_set x.money_scope_key) Error.money_only
    then_check throw_if (is_set x.commercial_scope_key || is_set x.sale) Error.commercial_only
    then_check throw_if (has_quantity_links x.scope) Error.scope_immutable
