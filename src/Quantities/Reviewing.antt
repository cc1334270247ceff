-- ===== src/Quantities/Reviewing.antt =====
-- quantity_assertion_service.py: an assertion is drafted, submitted, reviewed and superseded.
use fresko_universe.Access.{
  PermissionType, assert_can_prepare_outward, evidence_has_permission,
  quantity_assertion_has_permission,
}
use fresko_universe.Data.{
  QuantityFacts, QuantityAssertion, Session, Digests, is_assertion, Basis, Provenance,
  AssertionStatus,
}
use fresko_universe.Db.{
  Check, throw_if, ◌then_check◌, or_throw, M, ◌>>=◌, ◌>>◌, pure, reads, check, evidence_key,
  get_assertion, on_duplicate, Db, Result, ok, err, Error,
}
use fresko_universe.Outwards.{container_exists}
use fresko_universe.Prelude.{
  ℕ, Bool, true, false, ◌&&◌, ◌||◌, not, Option, none, some, List, ◌==◌, if◌then◌else◌, Ref, is_set,
  ◌=?◌, any, find_by, keep, find,
}
use fresko_universe.Prelude.Int.{ℤ}
use fresko_universe.Quantities.Document.{
  quantity_check, same_scope, is_active_now, save_assertion, insert_assertion,
}

-- The arguments of create_quantity_assertion; `basis` and `provenance` are none where they are
-- none of the values that are listed.
pub record QuantityRequest : Type 0 where
  pub container : ℕ
  pub basis : Option Basis
  pub raw_value : Ref
  pub quantity : Option ℤ
  pub uom : Ref
  pub raw_uom : Ref
  pub evidence : ℕ
  pub effective_at : Ref
  pub provenance : Option Provenance
  pub reason : Ref
  pub source_fact_id : Ref
  pub supersedes : Ref

-- _assert_evidence, of the snapshot
unfoldable pub assert_fact_evidence : Session → ℕ → ℕ → Db → Check
unfolding evidence_has_permission find
assert_fact_evidence s container evidence db = elim (find evidence_key evidence db.evidences) [
  | none ↦ err Error.evidence_missing
  | some e ↦
      throw_if (not (evidence_has_permission s evidence PermissionType.read db))
        Error.evidence_denied
      then_check throw_if (not (e.container =? some container)) Error.evidence_other_container
]

-- The checks on the texts and the number that follow the basis and the provenance.
unfoldable pub fact_checks : QuantityRequest → Check
unfolding quantity_check
fact_checks r =
    throw_if (not (is_set r.raw_value && is_set r.source_fact_id)) Error.raw_value_required
    then_check quantity_check r.quantity
    then_check throw_if (is_set r.quantity && not (is_set r.uom)) Error.uom_required
    then_check throw_if (not (is_set r.reason)) Error.fact_reason_required

unfoldable pub quantity_facts : QuantityRequest → Basis → Provenance → QuantityFacts
quantity_facts r basis provenance = record {
  container = r.container;
  basis = basis;
  raw_value = r.raw_value;
  quantity = r.quantity;
  uom = r.uom;
  raw_uom = r.raw_uom;
  evidence = r.evidence;
  effective_at = r.effective_at;
  provenance = provenance;
  reason = r.reason;
  supersedes = r.supersedes;
  source_fact_id = r.source_fact_id;
}

-- `assertion_key`
unfoldable pub identity_key : Digests → QuantityFacts → ℕ
identity_key g f = g.quantity_identity f.container f.basis f.evidence f.source_fact_id

unfoldable pub draft_assertion : Digests → Session → QuantityFacts → ℕ → QuantityAssertion
unfolding identity_key
draft_assertion g s f n = record {
  name = n;
  facts = f;
  assertion_key = identity_key g f;
  payload_sha256 = g.quantity_payload f;
  status = AssertionStatus.draft;
  prepared_by = s.user;
  reviewed_by = none;
  activated_by = none;
  activated_at = 0;
  superseded_by = none;
}

unfoldable pub assertion_of_key : ℕ → Db → Option QuantityAssertion
unfolding find_by
assertion_of_key key db = find_by (λ a. a.assertion_key == key) db.assertions

-- _replay, of the row as the snapshot has it
unfoldable pub assertion_replay : Session → QuantityAssertion → ℕ → Result QuantityAssertion
unfolding quantity_assertion_has_permission
assertion_replay s a payload =
    if not (quantity_assertion_has_permission s a false PermissionType.read)
    then err Error.permission_denied
    else if a.payload_sha256 == payload
    then ok a
    else err Error.payload_conflict

unfoldable pub replay_found :
    Session → ℕ → Option QuantityAssertion → M QuantityAssertion → M QuantityAssertion
unfolding assertion_replay
replay_found s payload (some a) otherwise = reads λ _. assertion_replay s a payload
replay_found s payload none otherwise = otherwise

-- The end of create_quantity_assertion. After a duplicate the key is looked up in the snapshot
-- again, and the exception is thrown on where that has none.
unfoldable pub replay_or_insert : Digests → Session → Db → QuantityFacts → M QuantityAssertion
unfolding replay_found assertion_of_key on_duplicate insert_assertion draft_assertion identity_key
replay_or_insert g s before f =
    replay_found s (g.quantity_payload f) (assertion_of_key (identity_key g f) before) (
      on_duplicate (insert_assertion s true (draft_assertion g s f)) (
        replay_found s (g.quantity_payload f) (assertion_of_key (identity_key g f) before)
          (reads λ _. err Error.unique_violation)))

-- create_quantity_assertion; `before` is the snapshot that its plain reads see
unfoldable pub create_quantity_assertion :
    Digests → Session → Db → QuantityRequest → M QuantityAssertion
unfolding assert_can_prepare_outward container_exists fact_checks assert_fact_evidence
    quantity_facts replay_or_insert
create_quantity_assertion g s before r = do
  check (assert_can_prepare_outward s)
  check (container_exists r.container before)
  basis ← reads λ _. or_throw r.basis Error.basis_invalid
  provenance ← reads λ _. or_throw r.provenance Error.provenance_invalid
  check (fact_checks r)
  check (assert_fact_evidence s r.container r.evidence before)
  replay_or_insert g s before (quantity_facts r basis provenance)

-- _locked: the probe of the snapshot, and the locking read
unfoldable pub locked_assertion : Db → ℕ → M QuantityAssertion
locked_assertion before n = do reads λ _. get_assertion n before; reads (get_assertion n)

-- submit_quantity_assertion
unfoldable pub submit_quantity_assertion : Session → Db → ℕ → M QuantityAssertion
unfolding assert_can_prepare_outward locked_assertion save_assertion
submit_quantity_assertion s before n = do
  check (assert_can_prepare_outward s)
  a ← locked_assertion before n
  check (throw_if (not (a.prepared_by == s.user)) Error.not_maker)
  if is_assertion a.status AssertionStatus.review_pending then pure a else (do
    check (throw_if (not (is_assertion a.status AssertionStatus.draft)) Error.wrong_status)
    save_assertion s 0 true (record a { status = AssertionStatus.review_pending }))

-- The active assertions of the scope.
unfoldable pub active_in_scope : QuantityAssertion → Db → List QuantityAssertion
unfolding keep same_scope
active_in_scope a db = keep (λ x. same_scope x a && is_active_now x) db.assertions

-- An assertion that superseded this one is, or was, active.
unfoldable pub has_successor : ℕ → Db → Bool
unfolding any
has_successor n db =
    any
      (λ a.
        a.supersedes =? some n
        && (is_active_now a || is_assertion a.status AssertionStatus.superseded))
      db.assertions

-- What _activate does with the assertion that is superseded, as the locking read has it.
unfoldable pub supersede : Session → ℕ → Db → QuantityAssertion → QuantityAssertion → M (Unit {0})
unfolding any active_in_scope has_successor save_assertion
supersede s now before a prior = do
  reads λ db.
      throw_if
        (not (is_active_now prior) || any (λ x. not (x.name == prior.name)) (active_in_scope a db))
        Error.sole_active_required
  check (throw_if (has_successor prior.name before) Error.successor_exists)
  save_assertion s now true
      (record prior { superseded_by = some a.name; status = AssertionStatus.superseded })
  pure tt

-- _activate, by what the assertion supersedes
unfoldable pub activate_over : Session → ℕ → Db → QuantityAssertion → Ref → M (Unit {0})
unfolding supersede any active_in_scope
activate_over s now before a none =
    reads λ db. throw_if (any (λ _. true) (active_in_scope a db)) Error.active_exists
activate_over s now before a (some n) = do
  prior ← reads (get_assertion n)
  supersede s now before a prior
