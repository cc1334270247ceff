-- ===== src/Examples/LedgerRuns.antt =====
-- The definitions of the ledger that the examples compute.
use fresko_universe.Access.{
  assert_can_prepare_outward, assert_can_post_outward, assert_can_read_ats_snapshot, is_view,
  is_own_view, deal_is_assigned, evidence_of_deal, deal_of_evidence, evidence_has_permission,
  evidence_permission_query, attachment_has_permission, attempt_has_permission,
  outward_permission_query, outward_has_permission, preparer_of, field_assertion_has_permission,
  field_assertion_permission_query, quantity_assertion_permission_query,
  quantity_assertion_has_permission,
}
use fresko_universe.Db.{on_duplicate}
use fresko_universe.ExceptionRules.{
  save_exception, variance_taken, insert_exception, delete_exception, company_of_collection,
  money_changed, validate_money_exception, is_money, commercial_changed, commercial_frozen,
  validate_commercial_scope, has_quantity_links, validate_outward_scoped, validate_quantity_scoped,
  validate_scope, link_changed, validate_immutability, validate_exception, trash_exception,
}
use fresko_universe.FieldAssertions.{
  active_rates, has_rate_successor, prior_checks, supersede_rate, activate_rate_over, activate_rate,
  priced_rates, has_header_rate, all_covered, is_fully_priced, resolve_unpriced_when_complete,
  rate_terminal_replay, decide_rate, review_locked_rate, review_field_assertion, canonical_decimal,
  line_exists, validate_rate_payload, same_target, validate_rate_supersession, rate_payload_changed,
  rate_transition, validate_stored_rate, validate_rate_of, validate_field_assertion,
  save_field_assertion, rate_terms, before_insert_rate, insert_field_assertion,
  trash_field_assertion, line_key_check, target_lines, rate_uom_matches, rate_facts, rate_checks,
  draft_rate, rate_of_key, rate_replay, rate_winner, recover_rate, replay_or_insert_rate,
  create_rate_assertion, load_rate_under_lock, submit_locked_rate, submit_field_assertion,
}
use fresko_universe.Outwards.{
  validate_movement_shape, validate_outward_line, validate_outward_rows, validate_outward_lines,
  outward_transition, validate_stored_outward, validate_outward, save_outward,
  before_insert_outward, outward_taken, insert_outward, trash_outward, line_checks, normal_line,
  normalise_line, normalise_rows, normalise_lines, assert_evidence_container, reversal_exists,
  copied_line, copied_lines, reversal_facts, is_posted_outward, reversal_conflict, recover_reversal,
  replay_or_reverse, create_outward_reversal, add_mapped, mapped_lots, check_mapped, lines_total,
  lines_uoms, capacity_checks, same_shape, mirror_checks, reversed_of, reversal_checks,
  stock_checks, posting_checks, open_on_outward, outward_exception, open_unless,
  ensure_outward_exception, ensure_if, prior_gatepasses, has_duplicate, open_duplicates,
  ensure_duplicate_gatepass_exceptions, settled_by_reversal, resolve_each,
  resolve_reversed_outward_exceptions, has_unmapped, after_post, post_checked, post_locked,
  post_outward, deal_checks, container_exists, company_of, comparison_key, outward_facts,
  draft_outward, outward_of_event, outward_replay, replay_winner, current_replay, replay_or_create,
  create_outward, load_outward_for_update, submit_outward_for_review,
}
use fresko_universe.Quantities.{
  latest_of, latest, pair_of, current_pair, variance_of, variance_exception, variance_of_key,
  exception_of_key, taken_variance, open_variance, ensure_variance_of, ensure_variance,
  ensure_physical_variance, terminal_replay, is_terminal, decide_review, review_quantity_assertion,
  settle_variance, resolve_physical_variance, operating_of, exception_of_pair, project_declared,
  quantity_reconciliation_projection, assert_fact_evidence, fact_checks, quantity_facts,
  identity_key, draft_assertion, assertion_of_key, assertion_replay, replay_found, replay_or_insert,
  create_quantity_assertion, locked_assertion, submit_quantity_assertion, active_in_scope,
  has_successor, supersede, activate_over, canonical_quantity, quantity_check, validate_payload,
  same_scope, validate_supersession, payload_changed, assertion_transition,
  validate_stored_assertion, validate_assertion_of, validate_assertion, save_assertion,
  before_insert_assertion, insert_assertion, trash_assertion,
}

-- All that runs of the ledger compute through.
unfoldable pub ledger_runs : Unit {0}
unfolding is_view is_own_view deal_is_assigned evidence_of_deal deal_of_evidence
    evidence_has_permission evidence_permission_query attachment_has_permission
    attempt_has_permission outward_permission_query outward_has_permission preparer_of
    field_assertion_has_permission field_assertion_permission_query
    quantity_assertion_permission_query quantity_assertion_has_permission assert_can_prepare_outward
    assert_can_post_outward assert_can_read_ats_snapshot company_of_collection money_changed
    validate_money_exception is_money commercial_changed commercial_frozen validate_commercial_scope
    has_quantity_links validate_outward_scoped validate_quantity_scoped validate_scope link_changed
    validate_immutability validate_exception trash_exception save_exception variance_taken
    insert_exception delete_exception validate_movement_shape validate_outward_line
    validate_outward_rows validate_outward_lines outward_transition validate_stored_outward
    validate_outward save_outward before_insert_outward outward_taken insert_outward trash_outward
    line_checks normal_line normalise_line normalise_rows normalise_lines assert_evidence_container
    deal_checks container_exists company_of comparison_key outward_facts draft_outward
    outward_of_event outward_replay replay_winner current_replay replay_or_create create_outward
    load_outward_for_update submit_outward_for_review reversal_exists copied_line copied_lines
    reversal_facts is_posted_outward reversal_conflict recover_reversal replay_or_reverse
    create_outward_reversal add_mapped mapped_lots check_mapped lines_total lines_uoms
    capacity_checks same_shape mirror_checks reversed_of reversal_checks stock_checks posting_checks
    open_on_outward outward_exception open_unless ensure_outward_exception ensure_if
    prior_gatepasses has_duplicate open_duplicates ensure_duplicate_gatepass_exceptions
    settled_by_reversal resolve_each resolve_reversed_outward_exceptions has_unmapped after_post
    post_checked post_locked post_outward canonical_quantity quantity_check validate_payload
    same_scope validate_supersession payload_changed assertion_transition validate_stored_assertion
    validate_assertion_of validate_assertion save_assertion before_insert_assertion insert_assertion
    trash_assertion assert_fact_evidence fact_checks quantity_facts identity_key draft_assertion
    assertion_of_key assertion_replay replay_found replay_or_insert create_quantity_assertion
    locked_assertion submit_quantity_assertion active_in_scope has_successor supersede activate_over
    latest_of latest pair_of current_pair variance_of variance_exception variance_of_key
    exception_of_key taken_variance open_variance ensure_variance_of ensure_variance
    ensure_physical_variance terminal_replay is_terminal decide_review review_quantity_assertion
    settle_variance resolve_physical_variance operating_of exception_of_pair project_declared
    quantity_reconciliation_projection canonical_decimal line_exists validate_rate_payload
    same_target validate_rate_supersession rate_payload_changed rate_transition validate_stored_rate
    validate_rate_of validate_field_assertion save_field_assertion rate_terms before_insert_rate
    insert_field_assertion trash_field_assertion line_key_check target_lines rate_uom_matches
    rate_facts rate_checks draft_rate rate_of_key rate_replay rate_winner recover_rate
    replay_or_insert_rate create_rate_assertion load_rate_under_lock submit_locked_rate
    submit_field_assertion active_rates has_rate_successor prior_checks supersede_rate
    activate_rate_over activate_rate priced_rates has_header_rate all_covered is_fully_priced
    resolve_unpriced_when_complete rate_terminal_replay decide_rate review_locked_rate
    review_field_assertion on_duplicate
ledger_runs = tt
