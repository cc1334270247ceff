-- ===== src/FieldAssertions/Creating.antt =====
-- outward_service.py: a rate assertion is drafted and submitted.
use fresko_universe.Access.{
  PermissionType, assert_can_prepare_outward, outward_has_permission,
  field_assertion_has_permission,
}
use fresko_universe.Data.{
  OutwardLine, Outward, RateFacts, FieldAssertion, Session, Digests, is_assertion, Provenance,
  AssertionStatus,
}
use fresko_universe.Db.{
  Check, pass, throw_if, ◌then_check◌, M, ◌>>=◌, ◌>>◌, pure, reads, check, field_assertion_key,
  get_outward, get_field_assertion, ignore, on_duplicate, Db, Result, ok, err, Error,
}
use fresko_universe.FieldAssertions.Document.{
  canonical_decimal, save_field_assertion, rate_terms, insert_field_assertion,
}
use fresko_universe.Outwards.{assert_evidence_container, is_posted_outward, load_outward_for_update}
use fresko_universe.Prelude.{
  ℕ, true, false, not, Option, none, some, List, ◌==◌, if◌then◌else◌, Ref, is_set, ◌=?◌, any,
  find_by, keep, find,
}
use fresko_universe.Prelude.Int.{ℤ}

-- The arguments of create_rate_assertion, with texts and numbers as they are read.
pub record RateRequest : Type 0 where
  pub outward_name : ℕ
  pub outward_line_key : Ref
  pub assertion_basis : Provenance
  pub raw_value : Ref
  pub rate : Option ℤ
  pub evidence : ℕ
  pub effective_at : Ref
  pub reason : Ref
  pub supersedes : Ref
  pub currency : Ref
  pub rate_uom : Ref

-- `line_key not in {...}`
unfoldable pub line_key_check : Ref → List OutwardLine → Check
unfolding any
line_key_check none ls = pass
line_key_check (some key) ls =
    throw_if (not (any (λ l. l.line_key == key) ls)) Error.line_key_unknown

-- The lines that a rate is about: the one of the key, or all.
unfoldable pub target_lines : Ref → List OutwardLine → List OutwardLine
unfolding keep
target_lines none ls = ls
target_lines (some key) ls = keep (λ l. l.line_key == key) ls

-- _assert_rate_uom_matches_outward
unfoldable pub rate_uom_matches : List OutwardLine → Ref → Option ℤ → Ref → Check
unfolding target_lines any
rate_uom_matches ls key none rate_uom = pass
rate_uom_matches ls key (some _) rate_uom =
    throw_if (not (any (λ _. true) (target_lines key ls))) Error.line_key_unknown
    then_check throw_if (any (λ l. not (l.uom =? rate_uom)) (target_lines key ls))
        Error.rate_uom_differs

unfoldable pub rate_facts : RateRequest → RateFacts
rate_facts r = record {
  outward = r.outward_name;
  outward_line_key = r.outward_line_key;
  assertion_basis = r.assertion_basis;
  raw_value = r.raw_value;
  rate = r.rate;
  currency = r.currency;
  rate_uom = r.rate_uom;
  evidence = r.evidence;
  effective_at = r.effective_at;
  reason = r.reason;
  supersedes = r.supersedes;
}

-- The checks on the request, of the Outward that is locked.
unfoldable pub rate_checks : RateRequest → Outward → Check
unfolding line_key_check canonical_decimal rate_terms rate_facts rate_uom_matches
rate_checks r o =
    line_key_check r.outward_line_key o.lines
    then_check ignore (canonical_decimal r.rate)
    then_check rate_terms (rate_facts r)
    then_check rate_uom_matches o.lines r.outward_line_key r.rate r.rate_uom
    then_check throw_if (not (is_set r.raw_value)) Error.raw_value_required

-- The new document; its key and its payload are one digest.
unfoldable pub draft_rate : Digests → Session → RateFacts → ℕ → FieldAssertion
draft_rate g s f n = record {
  name = n;
  facts = f;
  assertion_key = g.rate_payload f;
  payload_sha256 = g.rate_payload f;
  status = AssertionStatus.draft;
  prepared_by = s.user;
  asserted_by = none;
  reviewed_by = none;
  activated_by = none;
  superseded_by = none;
}

unfoldable pub rate_of_key : ℕ → Db → Option FieldAssertion
unfolding find_by
rate_of_key key db = find_by (λ a. a.assertion_key == key) db.field_assertions

-- _assertion_replay: the row as the request's snapshot has it
unfoldable pub rate_replay : Session → ℕ → ℕ → Db → Result FieldAssertion
unfolding find field_assertion_has_permission
rate_replay s n payload before = elim (find field_assertion_key n before.field_assertions) [
  | none ↦ err Error.permission_denied
  | some a ↦
      if not (field_assertion_has_permission s a false PermissionType.read before)
      then err Error.permission_denied
      else if a.payload_sha256 == payload
      then ok a
      else err Error.payload_conflict
]

unfoldable pub rate_winner : Session → ℕ → Db → Option FieldAssertion → M FieldAssertion
unfolding rate_replay
rate_winner s payload before (some a) = reads λ _. rate_replay s a.name payload before
rate_winner s payload before none = reads λ _. err Error.unique_violation

unfoldable pub recover_rate : Session → ℕ → Db → M FieldAssertion
unfolding rate_of_key rate_winner
recover_rate s payload before = do
  winner ← reads λ db. ok (rate_of_key payload db)
  rate_winner s payload before winner

-- The end of create_rate_assertion, from the assertion of the key that the snapshot has.
unfoldable pub replay_or_insert_rate :
    Digests → Session → Db → Option FieldAssertion → RateFacts → M FieldAssertion
unfolding rate_replay on_duplicate insert_field_assertion draft_rate recover_rate
replay_or_insert_rate g s before (some a) f =
    reads λ _. rate_replay s a.name (g.rate_payload f) before
replay_or_insert_rate g s before none f =
    on_duplicate (insert_field_assertion s true (draft_rate g s f))
      (recover_rate s (g.rate_payload f) before)

-- create_rate_assertion, under the lock of the Container
unfoldable pub create_rate_assertion : Digests → Session → Db → RateRequest → M FieldAssertion
unfolding assert_can_prepare_outward load_outward_for_update outward_has_permission
    is_posted_outward assert_evidence_container rate_checks replay_or_insert_rate rate_of_key
    rate_facts
create_rate_assertion g s before r = do
  check (assert_can_prepare_outward s)
  o ← load_outward_for_update before r.outward_name
  check (
      throw_if (not (outward_has_permission s (some o.prepared_by) false PermissionType.read))
        Error.permission_denied)
  check (throw_if (not (is_posted_outward o)) Error.not_posted_outward)
  check (assert_evidence_container s r.evidence o.container before)
  check (rate_checks r o)
  replay_or_insert_rate g s before (rate_of_key (g.rate_payload (rate_facts r)) before)
      (rate_facts r)

-- _load_assertion_under_container_lock
unfoldable pub load_rate_under_lock : Db → ℕ → M (FieldAssertion × Outward)
load_rate_under_lock before n = do
  probe ← reads λ _. get_field_assertion n before
  outward_probe ← reads λ _. get_outward probe.outward before
  a ← reads (get_field_assertion n)
  o ← reads (get_outward a.outward)
  check (throw_if (not (o.container == outward_probe.container)) Error.container_changed)
  pure (a, o)

-- The rest of submit_field_assertion, on the assertion that is locked.
unfoldable pub submit_locked_rate : Session → FieldAssertion → M FieldAssertion
unfolding save_field_assertion
submit_locked_rate s a = do
  check (throw_if (not (a.prepared_by == s.user)) Error.not_maker)
  if is_assertion a.status AssertionStatus.review_pending then pure a else (do
    check (throw_if (not (is_assertion a.status AssertionStatus.draft)) Error.wrong_status)
    save_field_assertion s true
        (record a { status = AssertionStatus.review_pending; asserted_by = some s.user }))

-- submit_field_assertion
unfoldable pub submit_field_assertion : Session → Db → ℕ → M FieldAssertion
unfolding assert_can_prepare_outward load_rate_under_lock submit_locked_rate
submit_field_assertion s before n = do
  check (assert_can_prepare_outward s)
  found ← load_rate_under_lock before n
  submit_locked_rate s found.0
