-- ===== src/Db/Errors.antt =====
-- The exceptions that the modelled code throws, one for each message.

pub data Error : Type 0 where
  permission_denied not_found : Error
  container_changed wrong_status not_owner no_counter_rate exceeds_ats : Error
  reason_required cancel_reason_required invalid_decision oversell_restricted : Error
  counter_requires_rate : Error
  lot_not_found lot_not_on_container container_missing uom_mismatch ats_unresolved : Error
  ats_shortfall physical_overdrawn : Error
  negative_dispatch inexact_replay dispatch_decreases exceeds_deal_qty : Error
  physical_ceiling already_dispatched : Error
  field_not_eligible evidence_required revision_not_pending wrong_parent : Error
  approval_required approval_missing : Error
  approval_other_deal approval_not_approve approval_without_revision : Error
  approval_other_revision approval_consumed approval_stale revision_stale : Error
  qty_not_positive alias_changed alias_empty message_id_changed duplicate_message : Error
  fingerprint_changed duplicate_fingerprint desk_transition invalid_transition : Error
  approved_rate_locked proposed_rate_frozen commercially_frozen : Error
  dispatch_exceeds_qty dispatch_server_only customer_unresolved buyer_exception_open : Error
  must_start_proposed : Error
  container_no_taken lot_no_required duplicate_lot negative_inward lot_uom_required : Error
  lots_required lot_sum_differs inward_not_positive inward_reason_required : Error
  lot_has_posted below_posted uom_has_posted lot_has_sold below_sold : Error
  revision_frozen applied_only_by_apply : Error
  company_missing not_closed company_changed close_denied : Error
  outward_lines_required line_text_required line_qty_not_positive line_uom_required : Error
  duplicate_line event_required evidence_missing evidence_denied evidence_unscoped : Error
  evidence_other_container deal_missing deal_denied deal_other_container : Error
  payload_conflict not_maker maker_is_checker lot_uoms_differ : Error
  reversal_reason_required not_posted_outward already_reversed not_a_mirror : Error
  service_only must_start_draft posted_immutable payload_immutable : Error
  reverses_required reverses_forbidden reverses_itself line_key_required : Error
  unique_violation raw_value_required fact_reason_required uom_required : Error
  negative_quantity supersedes_not_active other_scope sole_active_required : Error
  successor_exists active_exists different_decision superseded_by_missing : Error
  outward_required distinct_outwards_required two_scopes scope_forbidden : Error
  scope_required distinct_assertions_required variance_required scope_immutable : Error
  not_a_variance notes_required rate_terms_required line_key_unknown rate_uom_differs : Error
  negative_rate commercial_only money_only : Error
  basis_invalid provenance_invalid : Error
