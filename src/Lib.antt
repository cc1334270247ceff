-- ===== src/Lib.antt =====
-- Verification of the commercial core of Fresko Universe, a Frappe application for a trader of
-- container produce: Deals are proposed on the lots of a Container, approved by rate rules or by
-- an approver, dispatched, revised and reconciled, and the stock must not be oversold on the way.
--
-- The program's parts, by their paths from the repository's root below
-- fresko_universe/fresko_universe, and the modules that model them:
--
-- - Data: the DocTypes' fields and vocabularies (the .json files below fresko_core/doctype and
--   fresko_deals/doctype, constants.py), the caller of a request (Session: user and roles) and
--   the flags of one save (deal.flags).
-- - Policy: constants.py: DEAL_TRANSITIONS, CONTAINER_STATUS_TRANSITIONS and the sets of statuses
--   and fields.
-- - Db: the database as one record of tables, and a request's code as state passing with
--   exceptions (M, with do blocks). An exception abandons the state, as Frappe rolls the
--   transaction back. Db.Relates and Db.Frame hold the rules by which a relation between states
--   is proved of a whole action.
-- - Access: permissions.py: the gates of the methods, the binding of an Approval to a Revision,
--   and the permission hooks of Deals (Hooks) and of Evidence, Outwards and assertions
--   (LedgerHooks).
-- - RateRules: rate_rules.py: resolve_rate_band, policy_resolved, rate_in_band.
-- - Ats: fresko_core/ats.py: available_to_sell, _reserved_qty, _container_operating_capacity,
--   approved_sold.
-- - DealDoc: fresko_deals/doctype/fresko_deal/fresko_deal.py: FreskoDeal.validate, check by check
--   (Checks) and in its order (Save), as save_deal and insert_deal.
-- - Physical: fresko_core/physical.py: the ledger of posted Outwards and its capacity checks.
-- - CloseGate: fresko_core/services/close_policy.py and close_gate_service.py.
-- - ContainerDoc: fresko_core/doctype/fresko_container/fresko_container.py:
--   FreskoContainer.validate.
-- - Exceptions, Deals: deals.py: apply_rate_rules, accept_counter, cancel_deal,
--   advance_to_legacy_outward_pending, record_dispatch, and the Exceptions that they open and
--   settle.
-- - Approvals: approvals.py and fresko_approval.py: decide with its branches, and
--   _insert_approval.
-- - Revisions: deals.py: request_revision and apply_revision; approvals.py:
--   create_revision_approval; fresko_core/doctype/fresko_revision/fresko_revision.py (Document).
-- - ExceptionRules: fresko_core/doctype/fresko_exception/fresko_exception.py, and
--   validate_money_exception of fresko_core/services/money_service.py: the scopes of Exceptions
--   and what may not change.
-- - Outwards: fresko_core/services/outward_service.py and
--   fresko_core/doctype/fresko_outward/fresko_outward.py: a Draft from a source event (Lines,
--   Creating), a reversal (Reversing), the post (Posting) and the Exceptions that it opens and
--   settles (Opening), every save (Document).
-- - FieldAssertions: outward_service.py: create_rate_assertion, submit_field_assertion,
--   review_field_assertion and what they call;
--   fresko_core/doctype/fresko_field_assertion/fresko_field_assertion.py (Document).
-- - Quantities: fresko_core/services/quantity_assertion_service.py (Reviewing, Variance,
--   Decisions, Projection) and
--   fresko_core/doctype/fresko_container_quantity_assertion/fresko_container_quantity_assertion.py
--   (Document).
-- - Ledger: runs of the requests of Lifecycle and of those on Outwards and their assertions
--   together (LedgerStep, Runs).
-- - Lifecycle: runs of requests of any users, one after the other (Step, Reaches). DealDoc.Closed
--   is the interface by which the actions of Deals and Approvals are proved to keep a relation;
--   Evolves, KeepsApplied and KeepsKeys fill it. A Deal is inserted under a name that no Deal
--   has, as Frappe gives it.
-- - Examples: a small stock, on which the theorems' hypotheses are seen to hold.
--
-- How the parts interact: a method of Deals, Approvals or Revisions probes the Deal, takes the
-- lock of its Container, reads the Deal again, decides on it by RateRules, Access and Ats, writes
-- Exceptions and Approvals, and saves the Deal through DealDoc, whose checks no method can avoid.
-- Ats reads the Deals, the Containers and the active quantity assertions. A post of an Outward
-- checks what is left by Physical, saves through Outwards.Document, and opens Exceptions through
-- ExceptionRules; the activation of an assertion saves through Quantities.Document and may open a
-- variance the same way. The close gate and FreskoContainer.validate read what these leave.
--
-- Numbers: quantities, rates and tolerances are integers in units of 10^-9 (an amount in units of
-- 10^-18), so the tolerance 1e-9 of the code is 1; the rounding of floating-point numbers is not
-- modelled. Names, links and texts are natural numbers; Ref, an optional one, stands for a link
-- or a text that may be None or empty, and the two are not told apart. A missing lot, rate or
-- Approval is an error value, as in the code.
--
-- Locks: a request runs as one step on the database that it finds once it has its locks; what it
-- probed before may be any database (the argument `before`). Where a service reads without a
-- lock, `before` is the snapshot of its transaction, and the locking reads see the state;
-- on_duplicate is the attempt of an insert between savepoints. A request that fails changes
-- nothing. There is no fuel: every definition is total by recursion on its lists.
--
-- Parameters: Texts stands for Python's printing and Frappe's reading of numbers, with the law
-- that reading inverts printing; Digests stands for the SHA-256 sums by which source events,
-- payloads and variances are told apart, and for the key by which gatepasses are compared; the
-- fingerprint of a Deal (a SHA-256) and the table of ERPNext's companies are functions that the
-- definitions take.
--
-- Not modelled: the deletion of a Deal or a Revision from the Desk, which the DocTypes grant a
-- System Manager and no on_trash refuses, as a request of a run (Access has the permission on
-- Deals): no run of Lifecycle or Ledger holds one; the requests on Outwards and their assertions
-- in the runs of Lifecycle, which Ledger has; the services of money, commerce, evidence and
-- integrity, which keep tables of their own (what the code above reads of them are tables of Db);
-- the audit of a payload conflict, which goes through a connection of its own; the checks of
-- fresko_exception.py in the saves of the Deal methods, whose Exceptions bear no scope; time
-- stamps, but for the time at which an assertion is activated; physical_snapshot,
-- container_snapshot and pages, which only read and format; installation, patches, scripts and
-- tests.
pub mod Prelude
pub mod Data
pub mod Policy
pub mod Db
pub mod Access
pub mod RateRules
pub mod Ats
pub mod DealDoc
pub mod Physical
pub mod CloseGate
pub mod ContainerDoc
pub mod Exceptions
pub mod ExceptionRules
pub mod Outwards
pub mod Quantities
pub mod Deals
pub mod Approvals
pub mod Revisions
pub mod FieldAssertions
pub mod Ledger
pub mod Lifecycle
mod Examples
