-- ===== src/Examples/Runs.antt =====
-- The definitions that the examples compute.
use fresko_universe.Access.{
  deal_permission_query, accounts_may, approver_may, salesperson_may, deal_has_permission,
  is_approver, is_deal_owner_or_salesperson, assert_can_work_on_deal, assert_can_record_dispatch,
  assert_can_apply_revision, may_apply, assert_approval_bound_for_revision,
  assert_approval_not_consumed, applied_elsewhere, assert_approval_not_stale,
}
use fresko_universe.Approvals.{
  approval_before_insert, revision_binds, validate_approval, approval_row, insert_approval,
  approved_by, oversell_exception, decide_approve_at, decide_approve, countered_by, without_rate,
  decide_counter, rejected_by, decide_reject, decide_branch, decide,
}
use fresko_universe.Ats.{
  commercial_qty, commercial_qty_for_ats, counts, reserved_by, reserved_qty, lots_of, lot_of,
  operating_assertions, asserted_capacity, container_operating_capacity, lot_available,
  available_to_sell, assert_ats, approved_sold,
}
use fresko_universe.CloseGate.{
  close_exception_policy, is_material_type, is_material_severity, exception_is_material,
  blocks_directly, is_live, is_linked, attributed, blocks_by_receipt, company_differs,
  assert_container_can_fully_reconcile,
}
use fresko_universe.ContainerDoc.{
  validate_unique_container_no, validate_lot_row, validate_lot_rows, has_arrived, sum_inward,
  far_apart, has_lots, validate_lots, has_sold, inward_changed, validate_inward_qty, check_each,
  row_of, lot_uom_changed, covers_posted, validate_posted_lot, validate_inward_vs_posted_physical,
  sold_of_row, validate_removed_lot, validate_sold_lot, validate_inward_vs_approved_sold,
  validate_container_transition, is_fully_reconciled, validate_close_gate, lock_close_gate_company,
  validate_container, save_container,
}
use fresko_universe.DealDoc.{
  with_defaults, fetch_defaults_from_container, validate_qty, with_lot, found_lot, resolve_lot,
  validate_lot_belongs_to_container, validate_buyer_alias, key_changed, message_taken,
  fingerprint_taken, old_message, old_fingerprint, validate_idempotency_keys,
  validate_status_transition, rate_differs, commercial_change, enforce_commercial_lock,
  dispatch_unflagged, enforce_dispatched_qty_lock, is_open, open_of, has_open_exception,
  validate_reconciled_gate, amount_rate, compute_amount, validate_cancel_reason, validate_rest,
  validate, save_deal, before_insert, insert_deal,
}
use fresko_universe.Deals.{
  find_last, with_rate, approval_of_link, load_counter_approval, counter_rate, exception_of,
  approve_at, accept_counter, locked_deal, cancel_with, cancel_deal, to_outward_pending,
  advance_to_legacy_outward_pending, other_dispatched, lot_ceiling, lot_of_deal, dispatch_checks,
  dispatch_to, record_dispatch_locked, record_dispatch, snapshot, to_approval, auto_approve,
  rate_accepted, rate_branches, null_fields, apply_rate_rules,
}
use fresko_universe.Exceptions.{
  open_exception, first_open, reuse_or_open, ensure_open_exception, maybe_open_buyer_unresolved,
  get_open_rate_floor_breach, named_breach, breach_of, set_exception_status,
  transition_rate_floor_breach, rate_is_within_stored_band, settled, resolve_open,
  resolve_buyer_exceptions,
}
use fresko_universe.Physical.{
  tagged, posted_lines, signed_qty, add_to_lot, add_line, add_lines, posted_physical_quantities,
  posted_of, sum_values, posted_total, remaining_after, assert_mapped_lot_capacity,
  assert_container_capacity,
}
use fresko_universe.Physical.Ledger.{net_of_lot, net_of_all}
use fresko_universe.Policy.{
  deal_transitions, may_follow, reduces_ats, commercially_locked, container_transitions,
  container_may_follow, revision_eligible, is_material_field,
}
use fresko_universe.Prelude.{any, find_by, keep, find, put}
use fresko_universe.Prelude.Int.{◌+ℤ◌, ◌-ℤ◌, ◌*ℤ◌, min_ℤ, max_ℤ}
use fresko_universe.RateRules.{
  optional_rate, lot_row, default_band, rule_band, sized_band, lot_band, resolve_rate_band,
  policy_resolved, under, over, rate_in_band,
}
use fresko_universe.Revisions.{
  revision_before_insert, identity_changed, may_link, history_changed, validate_revision,
  save_revision, assert_evidence, revision_row, request_revision, create_revision_approval,
  material_checks, approval_for, revision_flags, consume, applied_row, reference_kept, settle_buyer,
  apply_revision, flt_of, str_of, field_text, set_field, rate_value, assert_old_value_matches,
  needs_ats, is_rate, is_customer, probe_lot, probe_qty,
}

-- All that runs compute through.
unfoldable pub runs : Unit {0}
unfolding is_approver is_deal_owner_or_salesperson assert_can_work_on_deal
    assert_can_record_dispatch assert_can_apply_revision may_apply
    assert_approval_bound_for_revision assert_approval_not_consumed applied_elsewhere
    assert_approval_not_stale deal_permission_query accounts_may approver_may salesperson_may
    deal_has_permission approved_by oversell_exception decide_approve_at decide_approve countered_by
    without_rate decide_counter rejected_by decide_reject decide_branch decide
    approval_before_insert revision_binds validate_approval approval_row insert_approval
    commercial_qty commercial_qty_for_ats counts reserved_by reserved_qty lots_of lot_of
    operating_assertions asserted_capacity container_operating_capacity lot_available
    available_to_sell assert_ats approved_sold close_exception_policy is_material_type
    is_material_severity exception_is_material blocks_directly is_live is_linked attributed
    blocks_by_receipt company_differs assert_container_can_fully_reconcile
    validate_unique_container_no validate_lot_row validate_lot_rows has_arrived sum_inward far_apart
    has_lots validate_lots has_sold inward_changed validate_inward_qty check_each row_of
    lot_uom_changed covers_posted validate_posted_lot validate_inward_vs_posted_physical sold_of_row
    validate_removed_lot validate_sold_lot validate_inward_vs_approved_sold
    validate_container_transition is_fully_reconciled validate_close_gate lock_close_gate_company
    validate_container save_container with_defaults fetch_defaults_from_container validate_qty
    with_lot found_lot resolve_lot validate_lot_belongs_to_container validate_buyer_alias
    key_changed message_taken fingerprint_taken old_message old_fingerprint
    validate_idempotency_keys validate_status_transition rate_differs commercial_change
    enforce_commercial_lock dispatch_unflagged enforce_dispatched_qty_lock is_open open_of
    has_open_exception validate_reconciled_gate amount_rate compute_amount validate_cancel_reason
    validate_rest validate save_deal before_insert insert_deal find_last with_rate approval_of_link
    load_counter_approval counter_rate exception_of approve_at accept_counter locked_deal
    cancel_with cancel_deal to_outward_pending advance_to_legacy_outward_pending other_dispatched
    lot_ceiling lot_of_deal dispatch_checks dispatch_to record_dispatch_locked record_dispatch
    snapshot to_approval auto_approve rate_accepted rate_branches null_fields apply_rate_rules
    open_exception first_open reuse_or_open ensure_open_exception maybe_open_buyer_unresolved
    get_open_rate_floor_breach named_breach breach_of set_exception_status
    transition_rate_floor_breach rate_is_within_stored_band settled resolve_open
    resolve_buyer_exceptions tagged posted_lines signed_qty add_to_lot add_line add_lines
    posted_physical_quantities posted_of sum_values posted_total remaining_after
    assert_mapped_lot_capacity assert_container_capacity net_of_lot net_of_all deal_transitions
    may_follow reduces_ats commercially_locked container_transitions container_may_follow
    revision_eligible is_material_field ◌+ℤ◌ ◌-ℤ◌ ◌*ℤ◌ min_ℤ max_ℤ any find_by keep find put
    optional_rate lot_row default_band rule_band sized_band lot_band resolve_rate_band
    policy_resolved under over rate_in_band material_checks approval_for revision_flags consume
    applied_row reference_kept settle_buyer apply_revision revision_before_insert identity_changed
    may_link history_changed validate_revision save_revision flt_of str_of field_text set_field
    rate_value assert_old_value_matches needs_ats is_rate is_customer probe_lot probe_qty
    assert_evidence revision_row request_revision create_revision_approval
runs = tt
