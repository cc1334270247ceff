-- ===== src/Outwards/Reversing.antt =====
-- outward_service.py: a reversal is drafted as a full mirror of a posted Outward.
use fresko_universe.Access.{PermissionType, assert_can_prepare_outward, outward_has_permission}
use fresko_universe.Data.{
  OutwardLine, OutwardFacts, Outward, Session, Digests, is_outward, is_movement, OutwardStatus,
  MovementType,
}
use fresko_universe.Db.{
  throw_if, or_throw, M, ◌>>=◌, ◌>>◌, reads, check, on_duplicate, Db, ok, err, Error,
}
use fresko_universe.Outwards.Creating.{
  comparison_key, draft_outward, outward_of_event, outward_replay, service_flags,
  load_outward_for_update,
}
use fresko_universe.Outwards.Document.{insert_outward}
use fresko_universe.Outwards.Lines.{assert_evidence_container}
use fresko_universe.Prelude.{
  ℕ, ◌+◌, Bool, true, false, ◌&&◌, not, Option, none, some, List, [], ◌∷◌, ◌==◌, if◌then◌else◌, Ref,
  is_set, ◌=?◌, any,
}

-- The arguments of create_outward_reversal.
pub record ReversalRequest : Type 0 where
  pub outward_name : ℕ
  pub movement_at : Ref
  pub source_evidence : ℕ
  pub source_event_id : Ref
  pub reason : Ref

-- _current_reversal_name, with the Outward that is left out
unfoldable pub reversal_exists : ℕ → Option ℕ → Db → Bool
unfolding any
reversal_exists n exclude db =
    any
      (λ o.
        o.reverses_outward =? some n && (elim exclude [ none ↦ true | some m ↦ not (o.name == m) ]))
      db.outwards

-- `line.source_line_ref or str(line.idx)`
abbrev pub line_ref : Digests → ℕ → Ref → ℕ
line_ref g idx none = g.index_text idx
line_ref g idx (some ref) = ref

unfoldable pub copied_line : Digests → ℕ → ℕ → OutwardLine → OutwardLine
copied_line g event idx l = record l {
  line_key = g.outward_line event (line_ref g idx l.source_line_ref);
  source_line_ref = some (line_ref g idx l.source_line_ref);
}

-- copied_lines, from the index of the first
unfoldable pub copied_lines : Digests → ℕ → ℕ → List OutwardLine → List OutwardLine
unfolding copied_line
copied_lines g event idx [] = []
copied_lines g event idx (l ∷ ls) = copied_line g event idx l ∷ copied_lines g event (idx + 1) ls

-- The payload of create_outward_reversal.
unfoldable pub reversal_facts : Digests → Outward → ReversalRequest → ℕ → OutwardFacts
unfolding copied_lines comparison_key
reversal_facts g original r event = record original.facts {
  gatepass_comparison_key = comparison_key g original.gatepass_no;
  movement_type = MovementType.reversal;
  movement_at = r.movement_at;
  source_evidence = r.source_evidence;
  source_event_id = r.source_event_id;
  posting_reason = r.reason;
  reverses_outward = some original.name;
  lines = copied_lines g event 1 original.lines;
}

-- `original.status != "Posted" or original.movement_type != "OUTWARD"`
unfoldable pub is_posted_outward : Outward → Bool
is_posted_outward o =
    is_outward o.status OutwardStatus.posted && is_movement o.movement_type MovementType.outward

-- What follows a unique column that is taken.
unfoldable pub reversal_conflict : Session → ℕ → ℕ → ℕ → Db → Option Outward → M Outward
unfolding outward_replay reversal_exists
reversal_conflict s event payload original before (some o) =
    reads λ _. outward_replay s o.name payload before
reversal_conflict s event payload original before none = reads λ db.
    if reversal_exists original none db
    then err Error.already_reversed
    else err Error.unique_violation

unfoldable pub recover_reversal : Session → ℕ → ℕ → ℕ → Db → M Outward
unfolding outward_of_event reversal_conflict
recover_reversal s event payload original before = do
  winner ← reads λ db. ok (outward_of_event event db)
  reversal_conflict s event payload original before winner

-- The end of create_outward_reversal, from the Outward of the event that is there.
unfoldable pub replay_or_reverse :
    Digests → Session → Db → Option Outward → ℕ → ℕ → OutwardFacts → M Outward
unfolding outward_replay reversal_exists on_duplicate insert_outward draft_outward recover_reversal
replay_or_reverse g s before (some o) event original facts =
    reads λ _. outward_replay s o.name (g.outward_payload facts) before
replay_or_reverse g s before none event original facts = do
  reads λ db. throw_if (reversal_exists original none db) Error.already_reversed
  on_duplicate (insert_outward s service_flags (draft_outward g s event facts))
      (recover_reversal s event (g.outward_payload facts) original before)

-- create_outward_reversal, under the lock of the Container
unfoldable pub create_outward_reversal : Digests → Session → Db → ReversalRequest → M Outward
unfolding assert_can_prepare_outward load_outward_for_update outward_has_permission
    is_posted_outward assert_evidence_container outward_of_event reversal_facts replay_or_reverse
create_outward_reversal g s before r = do
  check (assert_can_prepare_outward s)
  check (throw_if (not (is_set r.reason)) Error.reversal_reason_required)
  original ← load_outward_for_update before r.outward_name
  check (
      throw_if
        (not (outward_has_permission s (some original.prepared_by) false PermissionType.read))
        Error.permission_denied)
  check (throw_if (not (is_posted_outward original)) Error.not_posted_outward)
  check (assert_evidence_container s r.source_evidence original.container before)
  event_id ← reads λ _. or_throw r.source_event_id Error.event_required
  let event = g.outward_event original.container r.source_evidence event_id
  existing ← reads λ db. ok (outward_of_event event db)
  replay_or_reverse g s before existing event original.name (reversal_facts g original r event)
