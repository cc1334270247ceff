-- ===== src/Data/Documents.antt =====
-- The documents: fresko_deal.json, fresko_container.json and the others.
use fresko_universe.Prelude.{ℕ, Bool, List, Option, none, Ref}
use fresko_universe.Prelude.Int.{ℤ}
use fresko_universe.Data.Vocabulary.{
  DealStatus, ContainerStatus, ClosingStatus, Severity, ExceptionStatus, ExceptionType, Decision,
  RevisionStatus, Basis, Provenance, AssertionStatus, OutwardStatus, MovementType, FieldName,
  AllocationStatus,
}

-- Fresko Deal
pub record Deal : Type 0 where
  pub name : ℕ
  pub owner : ℕ
  pub salesperson_user : Ref
  pub status : DealStatus
  pub container : ℕ
  pub lot_no : Ref
  pub container_lot : Ref
  pub batch : Ref
  pub count_size : Ref
  pub buyer_alias : Ref
  pub customer : Ref
  pub company : Ref
  pub item : Ref
  pub uom : Ref
  pub currency : Ref
  pub qty : ℤ
  pub dispatched_qty : ℤ
  pub proposed_rate : ℤ
  pub approved_rate : Option ℤ
  pub rate_floor : Option ℤ
  pub rate_ceiling : Option ℤ
  pub approval_required : Bool
  pub approval : Ref
  pub cancel_reason : Ref
  pub source_message_id : Ref
  pub duplicate_fingerprint : Ref
  pub amount : ℤ

-- Fresko Container Lot
pub record Lot : Type 0 where
  pub name : ℕ
  pub lot_no : Ref
  pub inward_qty : ℤ
  pub uom : Ref
  pub batch : Ref
  pub count_size : Ref
  pub rate_floor_override : Option ℤ
  pub rate_ceiling_override : Option ℤ

-- Fresko Container Rate Rule
pub record RateRule : Type 0 where
  pub count_size : Ref
  pub rate_floor : Option ℤ
  pub rate_ceiling : Option ℤ

-- Fresko Container
pub record Container : Type 0 where
  pub name : ℕ
  pub container_no : Ref
  pub company : Ref
  pub item : Ref
  pub uom : Ref
  pub currency : Ref
  pub inward_qty : ℤ
  pub status : ContainerStatus
  pub closing_status : ClosingStatus
  pub default_rate_floor : Option ℤ
  pub default_rate_ceiling : Option ℤ
  pub lots : List Lot
  pub rate_rules : List RateRule

-- What quantity_assertion_service.create_quantity_assertion is given: the payload of an assertion.
pub record QuantityFacts : Type 0 where
  pub container : ℕ
  pub basis : Basis
  pub raw_value : Ref
  pub quantity : Option ℤ
  pub uom : Ref
  pub raw_uom : Ref
  pub evidence : ℕ
  pub effective_at : Ref
  pub provenance : Provenance
  pub reason : Ref
  pub supersedes : Ref
  pub source_fact_id : Ref

-- Fresko Container Quantity Assertion. `activated_at` is a time stamp, later ones being greater.
pub record QuantityAssertion : Type 0 where
  pub name : ℕ
  pub facts : QuantityFacts
  pub open facts use *
  pub assertion_key : ℕ
  pub payload_sha256 : ℕ
  pub status : AssertionStatus
  pub prepared_by : ℕ
  pub reviewed_by : Ref
  pub activated_by : Ref
  pub activated_at : ℕ
  pub superseded_by : Ref

-- Fresko Outward Line
pub record OutwardLine : Type 0 where
  pub line_key : ℕ
  pub source_line_ref : Ref
  pub raw_lot_text : Ref
  pub lot_no : Ref
  pub batch : Ref
  pub qty : ℤ
  pub uom : Ref
  pub raw_qty_text : Ref
  pub raw_uom_text : Ref
  pub raw_rate_text : Ref

-- The payload of an Outward: what outward_service.create_outward and create_outward_reversal
-- hash.
pub record OutwardFacts : Type 0 where
  pub company : Ref
  pub container : ℕ
  pub deal : Ref
  pub gatepass_no : Ref
  pub gatepass_comparison_key : Ref
  pub vehicle_no : Ref
  pub raw_party_name : Ref
  pub movement_type : MovementType
  pub movement_at : Ref
  pub source_evidence : ℕ
  pub source_event_id : Ref
  pub posting_reason : Ref
  pub reverses_outward : Ref
  pub lines : List OutwardLine

-- Fresko Outward
pub record Outward : Type 0 where
  pub name : ℕ
  pub facts : OutwardFacts
  pub open facts use *
  pub source_event_key : ℕ
  pub payload_sha256 : ℕ
  pub status : OutwardStatus
  pub prepared_by : ℕ
  pub submitted_by : Ref
  pub posted_by : Ref

-- The payload of a Fresko Field Assertion, which is always about the field "rate".
pub record RateFacts : Type 0 where
  pub outward : ℕ
  pub outward_line_key : Ref
  pub assertion_basis : Provenance
  pub raw_value : Ref
  pub rate : Option ℤ
  pub currency : Ref
  pub rate_uom : Ref
  pub evidence : ℕ
  pub effective_at : Ref
  pub reason : Ref
  pub supersedes : Ref

-- Fresko Field Assertion
pub record FieldAssertion : Type 0 where
  pub name : ℕ
  pub facts : RateFacts
  pub open facts use *
  pub assertion_key : ℕ
  pub payload_sha256 : ℕ
  pub status : AssertionStatus
  pub prepared_by : ℕ
  pub asserted_by : Ref
  pub reviewed_by : Ref
  pub activated_by : Ref
  pub superseded_by : Ref

-- Fresko Evidence, as far as the ledger's services read it
pub record Evidence : Type 0 where
  pub name : ℕ
  pub container : Ref
  pub deal : Ref

-- The links by which a Fresko Exception is the ledger's.
pub record LedgerScope : Type 0 where
  pub outward : Ref
  pub related_outward : Ref
  pub declared_quantity_assertion : Ref
  pub operating_quantity_assertion : Ref
  pub variance_quantity : Option ℤ
  pub variance_uom : Ref
  pub variance_key : Ref

-- Those of an Exception that is not the ledger's.
abbrev pub no_scope : LedgerScope
no_scope = record {
  outward = none;
  related_outward = none;
  declared_quantity_assertion = none;
  operating_quantity_assertion = none;
  variance_quantity = none;
  variance_uom = none;
  variance_key = none;
}

-- Fresko Exception
pub record ExceptionDoc : Type 0 where
  pub name : ℕ
  pub exception_type : ExceptionType
  pub severity : Severity
  pub status : ExceptionStatus
  pub deal : Ref
  pub container : Ref
  pub collection : Ref
  pub money_company : Ref
  pub money_scope_key : Ref
  pub commercial_scope_key : Ref
  pub sale : Ref
  pub scope : LedgerScope
  pub open scope use *

-- Fresko Payment Allocation
pub record PaymentAllocation : Type 0 where
  pub company : Ref
  pub container : Ref
  pub collection : Ref
  pub status : AllocationStatus

-- Fresko Collection; `source_container` is the member "container" of its evidence snapshot, none
-- where the snapshot is no JSON object
pub record Collection : Type 0 where
  pub name : ℕ
  pub company : Ref
  pub source_container : Ref

-- Fresko Approval
pub record Approval : Type 0 where
  pub name : ℕ
  pub deal : ℕ
  pub revision : Ref
  pub decision : Decision
  pub decision_rate : Option ℤ
  pub proposed_rate : ℤ
  pub rate_floor : Option ℤ
  pub rate_ceiling : Option ℤ
  pub approver : ℕ
  pub reason : Ref
  pub oversell_override : Bool
  pub exception : Ref
  pub consumed : Bool

-- Fresko Revision; `on_deal` says that parent_doctype is "Fresko Deal"
pub record Revision : Type 0 where
  pub name : ℕ
  pub on_deal : Bool
  pub parent_name : ℕ
  pub fieldname : FieldName
  pub old_value : Ref
  pub new_value : Ref
  pub reason : Ref
  pub supporting_evidence : Ref
  pub status : RevisionStatus
  pub approval_reference : Ref
  pub changed_by : ℕ
