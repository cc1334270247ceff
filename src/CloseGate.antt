-- ===== src/CloseGate.antt =====
-- close_policy.py and close_gate_service.py: which open Exceptions keep a Container from being
-- Fully Reconciled.
pub mod Harmless
pub mod Blocks
use fresko_universe.Data.{
  Container, ExceptionDoc, Collection, is_exception, Severity, ExceptionType, AllocationStatus,
}
use fresko_universe.Db.{Check, throw_if, ◌then_check◌, container_key, Db, Error}
use fresko_universe.DealDoc.{is_open}
use fresko_universe.Prelude.{
  ℕ, Bool, true, false, ◌&&◌, ◌||◌, not, Option, none, some, if◌then◌else◌, Ref, ◌=?◌, any, find,
}

-- The values of CLOSE_EXCEPTION_POLICY.
pub data ClosePolicy : Type 0 where
  always by_severity attributed_money : ClosePolicy

-- CLOSE_EXCEPTION_POLICY
unfoldable pub close_exception_policy : ExceptionType → ClosePolicy
close_exception_policy ExceptionType.other = ClosePolicy.by_severity
close_exception_policy ExceptionType.idempotency_payload_conflict = ClosePolicy.by_severity
close_exception_policy ExceptionType.concurrent_state_conflict = ClosePolicy.by_severity
close_exception_policy ExceptionType.money_unallocated = ClosePolicy.attributed_money
close_exception_policy ExceptionType.bank_pending = ClosePolicy.attributed_money
close_exception_policy ExceptionType.receipt_amount_unknown = ClosePolicy.attributed_money
close_exception_policy ExceptionType.receipt_direction_unknown = ClosePolicy.attributed_money
close_exception_policy _ = ClosePolicy.always

-- MATERIAL_EXCEPTION_TYPES
unfoldable pub is_material_type : ExceptionType → Bool
unfolding close_exception_policy
is_material_type kind = elim (close_exception_policy kind) [
  | ClosePolicy.always ↦ true
  | ClosePolicy.by_severity ↦ false
  | ClosePolicy.attributed_money ↦ true
]

-- MATERIAL_EXCEPTION_SEVERITIES
unfoldable pub is_material_severity : Severity → Bool
is_material_severity Severity.material = true
is_material_severity Severity.critical = true
is_material_severity _ = false

-- exception_is_material
unfoldable pub exception_is_material : ExceptionType → Severity → Bool
unfolding is_material_type is_material_severity
exception_is_material kind severity =
    if is_material_type kind then true else is_material_severity severity

-- An open Exception of the Container.
unfoldable pub blocks_directly : ℕ → ExceptionDoc → Bool
unfolding exception_is_material is_open
blocks_directly container x =
    x.container =? some container
    && is_open x.status
    && exception_is_material x.exception_type x.severity

-- The statuses of an allocation that is not at its end.
unfoldable pub is_live : AllocationStatus → Bool
is_live AllocationStatus.draft = true
is_live AllocationStatus.review_pending = true
is_live AllocationStatus.verified = true
is_live AllocationStatus.approved = true
is_live _ = false

-- `collection in linked_collections`
unfoldable pub is_linked : ℕ → Ref → ℕ → Db → Bool
unfolding any is_live
is_linked container company collection db =
    any
      (λ a.
        a.company =? company
        && a.container =? some container
        && is_live a.status
        && a.collection =? some collection)
      db.allocations

-- The receipt is the Container's, by its evidence or by an allocation.
unfoldable pub attributed : ℕ → Ref → ExceptionDoc → Collection → Db → Bool
unfolding is_linked
attributed container company x c db =
    c.source_container =? some container
    || not (is_exception x.exception_type ExceptionType.money_unallocated)
      && is_linked container company c.name db

-- An open Exception of a receipt of the company.
unfoldable pub blocks_by_receipt : ℕ → Ref → Db → ExceptionDoc → Bool
unfolding any attributed exception_is_material is_open
blocks_by_receipt container company db x =
    any
      (λ c.
        x.collection =? some c.name
        && x.money_company =? company
        && c.company =? company
        && is_open x.status
        && attributed container company x c db
        && exception_is_material x.exception_type x.severity)
      db.collections

-- `current and current[0].company != company`
unfoldable pub company_differs : Option Container → Ref → Bool
company_differs none company = false
company_differs (some c) company = not (c.company =? company)

-- assert_container_can_fully_reconcile
unfoldable pub assert_container_can_fully_reconcile : ℕ → Ref → Db → Check
unfolding any find blocks_directly blocks_by_receipt company_differs
assert_container_can_fully_reconcile container company db =
    throw_if (company_differs (find container_key container db.containers) company)
      Error.company_changed
    then_check throw_if (any (blocks_directly container) db.exceptions) Error.close_denied
    then_check throw_if (any (blocks_by_receipt container company db) db.exceptions)
        Error.close_denied
