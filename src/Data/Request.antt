-- ===== src/Data/Request.antt =====
-- The caller of a request, and the document flags of one save.
use fresko_universe.Data.Documents.{QuantityFacts, OutwardFacts, RateFacts}
use fresko_universe.Data.Vocabulary.{Basis}
use fresko_universe.Prelude.{ℕ, Bool, false, Ref}

-- `frappe.session.user`, and the tests that the code makes on the set of roles. `supplier` says
-- that some role's name contains "supplier".
pub record Session : Type 0 where
  pub user : ℕ
  pub administrator : Bool
  pub system_manager : Bool
  pub approver : Bool
  pub salesperson : Bool
  pub accounts : Bool
  pub supplier : Bool

-- `deal.flags`
pub record Flags : Type 0 where
  pub allow_status_transition : Bool
  pub allow_approval_write : Bool
  pub allow_commercial_revision : Bool
  pub allow_dispatch_write : Bool

-- A save from the Desk or the REST API.
abbrev pub no_flags : Flags
no_flags = record {
  allow_status_transition = false;
  allow_approval_write = false;
  allow_commercial_revision = false;
  allow_dispatch_write = false;
}

-- `doc.flags` of a document of the ledger, and of an Exception: `in_commercial` and `in_money` say
-- that the service's scope is entered.
pub record LedgerFlags : Type 0 where
  pub in_service : Bool
  pub allow_submit_for_review : Bool
  pub allow_post : Bool

pub record ExceptionFlags : Type 0 where
  pub in_outward_service : Bool
  pub in_quantity_service : Bool
  pub in_commercial : Bool
  pub in_money : Bool

-- The functions of texts that are hashed, by what they are computed from: SHA-256 sums of
-- canonical JSON, the text of a row's index, and the key by which gatepasses are compared.
pub record Digests : Type 0 where
  pub outward_event : ℕ → ℕ → ℕ → ℕ
  pub outward_line : ℕ → ℕ → ℕ
  pub index_text : ℕ → ℕ
  pub outward_payload : OutwardFacts → ℕ
  pub gatepass_comparison_key : ℕ → Ref
  pub quantity_identity : ℕ → Basis → ℕ → Ref → ℕ
  pub quantity_payload : QuantityFacts → ℕ
  pub rate_payload : RateFacts → ℕ
  pub variance_key : ℕ → ℕ → ℕ → ℕ
