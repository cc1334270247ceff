-- ===== src/Outwards/Creating.antt =====
-- outward_service.py: the Draft of an Outward, its replay, and its submission for review.
use fresko_universe.Access.{
  deal_has_permission, PermissionType, assert_can_prepare_outward, outward_has_permission,
  preparer_of,
}
use fresko_universe.Data.{
  OutwardLine, OutwardFacts, Outward, Session, LedgerFlags, Digests, is_outward, OutwardStatus,
  MovementType,
}
use fresko_universe.Db.{
  Check, pass, throw_if, ◌then_check◌, or_throw, M, ◌>>=◌, ◌>>◌, pure, reads, check, deal_key,
  container_key, outward_key, get_outward, on_duplicate, Db, Result, ok, err, Error,
}
use fresko_universe.Outwards.Document.{save_outward, insert_outward}
use fresko_universe.Outwards.Lines.{normalise_lines, assert_evidence_container, LineRequest}
use fresko_universe.Prelude.{
  ℕ, true, false, not, Option, none, some, List, ◌==◌, if◌then◌else◌, Ref, is_set, find_by, find,
}

-- The arguments of create_outward.
pub record OutwardRequest : Type 0 where
  pub container : ℕ
  pub movement_at : Ref
  pub source_evidence : ℕ
  pub source_event_id : Ref
  pub lines : List LineRequest
  pub posting_reason : Ref
  pub deal : Ref
  pub gatepass_no : Ref
  pub vehicle_no : Ref
  pub raw_party_name : Ref

-- The Deal that an Outward names: it is there, may be read, and is of the Container.
unfoldable pub deal_checks : Session → ℕ → Ref → Db → Check
unfolding deal_has_permission find
deal_checks s container none db = pass
deal_checks s container (some deal) db = elim (find deal_key deal db.deals) [
  | none ↦ err Error.deal_missing
  | some d ↦
      throw_if (not (deal_has_permission s d PermissionType.read)) Error.deal_denied
      then_check throw_if (not (d.container == container)) Error.deal_other_container
]

-- `frappe.db.exists("Fresko Container", container)`
unfoldable pub container_exists : ℕ → Db → Check
unfolding find
container_exists container db =
    throw_if (not (is_set (find container_key container db.containers))) Error.container_missing

unfoldable pub company_of : ℕ → Db → Ref
unfolding find
company_of container db = elim (find container_key container db.containers) [
  | none ↦ none
  | some c ↦ c.company
]

-- _gatepass_comparison_key
unfoldable pub comparison_key : Digests → Ref → Ref
comparison_key g none = none
comparison_key g (some text) = g.gatepass_comparison_key text

-- The payload of create_outward.
unfoldable pub outward_facts : Digests → OutwardRequest → Ref → List OutwardLine → OutwardFacts
unfolding comparison_key
outward_facts g r company lines = record {
  company = company;
  container = r.container;
  deal = r.deal;
  gatepass_no = r.gatepass_no;
  gatepass_comparison_key = comparison_key g r.gatepass_no;
  vehicle_no = r.vehicle_no;
  raw_party_name = r.raw_party_name;
  movement_type = MovementType.outward;
  movement_at = r.movement_at;
  source_evidence = r.source_evidence;
  source_event_id = r.source_event_id;
  posting_reason = r.posting_reason;
  reverses_outward = none;
  lines = lines;
}

-- The new document.
unfoldable pub draft_outward : Digests → Session → ℕ → OutwardFacts → ℕ → Outward
draft_outward g s event facts n = record {
  name = n;
  facts = facts;
  source_event_key = event;
  payload_sha256 = g.outward_payload facts;
  status = OutwardStatus.draft;
  prepared_by = s.user;
  submitted_by = none;
  posted_by = none;
}

-- The Outward of a source event.
unfoldable pub outward_of_event : ℕ → Db → Option Outward
unfolding find_by
outward_of_event event db = find_by (λ o. o.source_event_key == event) db.outwards

-- _outward_replay: the row is read as the request's snapshot has it. The audit of a conflict goes
-- through a connection of its own and is not modelled; the conflict is refused either way.
unfoldable pub outward_replay : Session → ℕ → ℕ → Db → Result Outward
unfolding outward_has_permission preparer_of find
outward_replay s n payload before =
    if not (outward_has_permission s (preparer_of n before) false PermissionType.read)
    then err Error.permission_denied
    else (elim (find outward_key n before.outwards) [
      | none ↦ err Error.not_found
      | some o ↦ if o.payload_sha256 == payload then ok o else err Error.payload_conflict
    ])

abbrev pub service_flags : LedgerFlags
service_flags = record { in_service = true; allow_submit_for_review = false; allow_post = false }

-- The replay of the Outward of the event, if there is one; the exception is thrown on if not.
unfoldable pub replay_winner : Session → ℕ → Db → Option Outward → M Outward
unfolding outward_replay
replay_winner s payload before (some o) = reads λ _. outward_replay s o.name payload before
replay_winner s payload before none = reads λ _. err Error.unique_violation

unfoldable pub current_replay : Session → ℕ → ℕ → Db → M Outward
unfolding outward_of_event replay_winner
current_replay s event payload before = do
  winner ← reads λ db. ok (outward_of_event event db)
  replay_winner s payload before winner

-- The end of create_outward, from the Outward of the event that the snapshot has.
unfoldable pub replay_or_create :
    Digests → Session → Db → Option Outward → ℕ → OutwardFacts → M Outward
unfolding outward_replay insert_outward draft_outward on_duplicate current_replay
replay_or_create g s before (some o) event facts =
    reads λ _. outward_replay s o.name (g.outward_payload facts) before
replay_or_create g s before none event facts =
    on_duplicate (insert_outward s service_flags (draft_outward g s event facts))
      (current_replay s event (g.outward_payload facts) before)

-- create_outward. It takes no lock: `before` is the snapshot that its plain reads see.
unfoldable pub create_outward : Digests → Session → Db → OutwardRequest → M Outward
unfolding assert_can_prepare_outward container_exists assert_evidence_container deal_checks
    normalise_lines replay_or_create outward_of_event outward_facts company_of
create_outward g s before r = do
  check (assert_can_prepare_outward s)
  event_id ← reads λ _. or_throw r.source_event_id Error.event_required
  check (container_exists r.container before)
  check (assert_evidence_container s r.source_evidence r.container before)
  check (deal_checks s r.container r.deal before)
  let event = g.outward_event r.container r.source_evidence event_id
  lines ← reads λ _. normalise_lines g event r.lines
  let facts = outward_facts g r (company_of r.container before) lines
  replay_or_create g s before (outward_of_event event before) event facts

-- _load_outward_for_update: the probe of the snapshot, and the locking read
unfoldable pub load_outward_for_update : Db → ℕ → M Outward
load_outward_for_update before n = do
  probe ← reads λ _. get_outward n before
  o ← reads (get_outward n)
  check (throw_if (not (o.container == probe.container)) Error.container_changed)
  pure o

abbrev pub submitting : LedgerFlags
submitting = record service_flags { allow_submit_for_review = true }

-- submit_outward_for_review
unfoldable pub submit_outward_for_review : Session → Db → ℕ → M Outward
unfolding assert_can_prepare_outward load_outward_for_update save_outward
submit_outward_for_review s before n = do
  check (assert_can_prepare_outward s)
  o ← load_outward_for_update before n
  check (throw_if (not (o.prepared_by == s.user)) Error.not_maker)
  if is_outward o.status OutwardStatus.review_pending then pure o else (do
    check (throw_if (not (is_outward o.status OutwardStatus.draft)) Error.wrong_status)
    save_outward s submitting
        (record o { status = OutwardStatus.review_pending; submitted_by = some s.user }))
