-- ===== src/Data/Vocabulary.antt =====
-- The vocabularies of constants.py, close_policy.py and of the DocTypes' Select fields.
use fresko_universe.Prelude.{ℕ, Bool, ◌==◌}

pub data DealStatus : Type 0 where
  proposed auto_approved approval_required approved countered rejected outward_pending : DealStatus
  dispatched partially_dispatched payment_pending paid partially_paid reconciled : DealStatus
  cancelled disputed : DealStatus

abbrev pub deal_code : DealStatus → ℕ
deal_code proposed = 0
deal_code auto_approved = 1
deal_code approval_required = 2
deal_code approved = 3
deal_code countered = 4
deal_code rejected = 5
deal_code outward_pending = 6
deal_code dispatched = 7
deal_code partially_dispatched = 8
deal_code payment_pending = 9
deal_code paid = 10
deal_code partially_paid = 11
deal_code reconciled = 12
deal_code cancelled = 13
deal_code disputed = 14

-- Equality of statuses.
abbrev pub is_status : DealStatus → DealStatus → Bool
is_status s t = deal_code s == deal_code t

pub data ContainerStatus : Type 0 where
  draft expected arrived in_cold_storage selling closing closed cancelled : ContainerStatus

abbrev pub container_code : ContainerStatus → ℕ
container_code draft = 0
container_code expected = 1
container_code arrived = 2
container_code in_cold_storage = 3
container_code selling = 4
container_code closing = 5
container_code closed = 6
container_code cancelled = 7

abbrev pub is_container_status : ContainerStatus → ContainerStatus → Bool
is_container_status s t = container_code s == container_code t

pub data ClosingStatus : Type 0 where
  open_ ready_to_close closed_with_exceptions fully_reconciled cancelled : ClosingStatus

pub data Severity : Type 0 where
  info low medium high critical material : Severity

pub data ExceptionStatus : Type 0 where
  open_ in_progress resolved waived cancelled : ExceptionStatus

abbrev pub exception_status_code : ExceptionStatus → ℕ
exception_status_code open_ = 0
exception_status_code in_progress = 1
exception_status_code resolved = 2
exception_status_code waived = 3
exception_status_code cancelled = 4

abbrev pub is_exception_status : ExceptionStatus → ExceptionStatus → Bool
is_exception_status s t = exception_status_code s == exception_status_code t

pub data ExceptionType : Type 0 where
  buyer_unresolved duplicate_message oversell_override stock_shortfall : ExceptionType
  rate_floor_breach rate_policy_missing outward_unpriced outward_without_deal : ExceptionType
  lot_unresolved duplicate_gatepass physical_variance data_integrity other : ExceptionType
  alias_unresolved alias_conflict rate_unknown rate_evidence_missing : ExceptionType
  price_bucket_unallocated lot_unknown party_unknown movement_time_unknown : ExceptionType
  sale_without_outward outward_without_sale allocation_overdraw : ExceptionType
  idempotency_payload_conflict concurrent_state_conflict money_unallocated : ExceptionType
  bank_pending receipt_amount_unknown receipt_direction_unknown : ExceptionType

abbrev pub exception_code : ExceptionType → ℕ
exception_code buyer_unresolved = 0
exception_code duplicate_message = 1
exception_code oversell_override = 2
exception_code stock_shortfall = 3
exception_code rate_floor_breach = 4
exception_code rate_policy_missing = 5
exception_code outward_unpriced = 6
exception_code outward_without_deal = 7
exception_code lot_unresolved = 8
exception_code duplicate_gatepass = 9
exception_code physical_variance = 10
exception_code data_integrity = 11
exception_code other = 12
exception_code alias_unresolved = 13
exception_code alias_conflict = 14
exception_code rate_unknown = 15
exception_code rate_evidence_missing = 16
exception_code price_bucket_unallocated = 17
exception_code lot_unknown = 18
exception_code party_unknown = 19
exception_code movement_time_unknown = 20
exception_code sale_without_outward = 21
exception_code outward_without_sale = 22
exception_code allocation_overdraw = 23
exception_code idempotency_payload_conflict = 24
exception_code concurrent_state_conflict = 25
exception_code money_unallocated = 26
exception_code bank_pending = 27
exception_code receipt_amount_unknown = 28
exception_code receipt_direction_unknown = 29

abbrev pub is_exception : ExceptionType → ExceptionType → Bool
is_exception s t = exception_code s == exception_code t

-- `decide`'s argument; `invalid` is any other text, None included.
pub data Decision : Type 0 where
  approve counter reject oversell_override invalid : Decision

pub data RevisionStatus : Type 0 where
  pending applied rejected cancelled : RevisionStatus

pub data Basis : Type 0 where
  declared_shipping customs_declared operating_inward : Basis

-- The provenance of a quantity assertion, and the assertion_basis of a field assertion.
pub data Provenance : Type 0 where
  source_extracted user_confirmed authorized_decision : Provenance

abbrev pub provenance_code : Provenance → ℕ
provenance_code source_extracted = 0
provenance_code user_confirmed = 1
provenance_code authorized_decision = 2

abbrev pub is_provenance : Provenance → Provenance → Bool
is_provenance a b = provenance_code a == provenance_code b

abbrev pub basis_code : Basis → ℕ
basis_code declared_shipping = 0
basis_code customs_declared = 1
basis_code operating_inward = 2

abbrev pub is_basis : Basis → Basis → Bool
is_basis a b = basis_code a == basis_code b

pub data AssertionStatus : Type 0 where
  draft review_pending active superseded rejected : AssertionStatus

pub data OutwardStatus : Type 0 where
  draft review_pending posted : OutwardStatus

pub data MovementType : Type 0 where
  outward reversal : MovementType

abbrev pub assertion_code : AssertionStatus → ℕ
assertion_code draft = 0
assertion_code review_pending = 1
assertion_code active = 2
assertion_code superseded = 3
assertion_code rejected = 4

abbrev pub is_assertion : AssertionStatus → AssertionStatus → Bool
is_assertion s t = assertion_code s == assertion_code t

abbrev pub outward_code : OutwardStatus → ℕ
outward_code draft = 0
outward_code review_pending = 1
outward_code posted = 2

abbrev pub is_outward : OutwardStatus → OutwardStatus → Bool
is_outward s t = outward_code s == outward_code t

abbrev pub movement_code : MovementType → ℕ
movement_code outward = 0
movement_code reversal = 1

abbrev pub is_movement : MovementType → MovementType → Bool
is_movement a b = movement_code a == movement_code b

-- `decision` of a review; `invalid` is any other text, None included.
pub data Review : Type 0 where
  activate reject invalid : Review

-- `decision` of resolve_physical_variance; `invalid` is any other text, None included.
pub data VarianceDecision : Type 0 where
  resolve waive invalid : VarianceDecision

-- The status of a Fresko Payment Allocation.
pub data AllocationStatus : Type 0 where
  draft review_pending verified approved rejected reversed superseded : AllocationStatus

-- The Deal's fields by which a Revision names its target; `ineligible` is any other.
pub data FieldName : Type 0 where
  approved_rate qty lot_no container_lot customer item count_size ineligible : FieldName
