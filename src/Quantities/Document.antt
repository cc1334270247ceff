-- ===== src/Quantities/Document.antt =====
-- fresko_container_quantity_assertion.py: what every insert and save of an assertion goes through.
use fresko_universe.Data.{
  QuantityFacts, QuantityAssertion, Session, is_provenance, is_basis, is_assertion, AssertionStatus,
}
use fresko_universe.Db.{
  Check, pass, throw_if, ◌then_check◌, M, ◌>>=◌, ◌>>◌, pure, reads, quantity_key, write_assertion,
  fresh, after, ignore, Db, Result, ok, err, Error,
}
use fresko_universe.ExceptionRules.{same_quantity}
use fresko_universe.Prelude.{
  ℕ, Bool, ◌&&◌, ◌||◌, not, Option, none, some, ◌==◌, if◌then◌else◌, is_set, ◌=?◌, any, find,
}
use fresko_universe.Prelude.Int.{ltb_ℤ, ℤ, pos}

-- canonical_quantity, of a number: its text is not modelled
unfoldable pub canonical_quantity : Option ℤ → Result (Option ℤ)
canonical_quantity none = ok none
canonical_quantity (some q) = if ltb_ℤ q (pos 0) then err Error.negative_quantity else ok (some q)

-- A quantity passes through canonical_quantity.
unfoldable pub quantity_check : Option ℤ → Check
unfolding canonical_quantity
quantity_check q = ignore (canonical_quantity q)

-- _validate_payload
unfoldable pub validate_payload : QuantityFacts → Check
unfolding quantity_check
validate_payload f =
    throw_if (not (is_set f.raw_value && is_set f.reason)) Error.raw_value_required
    then_check throw_if (not (is_set f.source_fact_id)) Error.fact_reason_required
    then_check quantity_check f.quantity
    then_check throw_if (is_set f.quantity && not (is_set f.uom)) Error.uom_required

-- The same Container, basis and unit.
unfoldable pub same_scope : QuantityAssertion → QuantityAssertion → Bool
same_scope a b = a.container == b.container && is_basis a.basis b.basis && a.uom =? b.uom

abbrev pub is_active_now : QuantityAssertion → Bool
is_active_now a = is_assertion a.status AssertionStatus.active

-- _validate_supersession
unfoldable pub validate_supersession : QuantityAssertion → Db → Check
unfolding find same_scope
validate_supersession a db = elim a.supersedes [
  | none ↦ pass
  | some n ↦ elim (find quantity_key n db.assertions) [
    | none ↦ err Error.supersedes_not_active
    | some prior ↦
        throw_if (not (is_active_now prior)) Error.supersedes_not_active
        then_check throw_if (not (same_scope prior a)) Error.other_scope
  ]
]

-- Some field of _PAYLOAD_FIELDS has changed.
unfoldable pub payload_changed : QuantityAssertion → QuantityAssertion → Bool
payload_changed old a =
    not (a.container == old.container)
    || not (is_basis a.basis old.basis)
    || not (a.raw_value =? old.raw_value)
    || not (same_quantity a.quantity old.quantity)
    || not (a.uom =? old.uom)
    || not (a.raw_uom =? old.raw_uom)
    || not (a.evidence == old.evidence)
    || not (a.effective_at =? old.effective_at)
    || not (is_provenance a.provenance old.provenance)
    || not (a.reason =? old.reason)
    || not (a.supersedes =? old.supersedes)
    || not (a.source_fact_id =? old.source_fact_id)
    || not (a.assertion_key == old.assertion_key)
    || not (a.payload_sha256 == old.payload_sha256)

-- The transitions of `validate`, from the stored status, with their stamps at the time `now`.
unfoldable pub assertion_transition :
    Session → ℕ → AssertionStatus → QuantityAssertion → Result QuantityAssertion
assertion_transition s now AssertionStatus.draft a =
    if is_assertion a.status AssertionStatus.review_pending && s.user == a.prepared_by
    then ok a
    else err Error.invalid_transition
assertion_transition s now AssertionStatus.review_pending a =
    if is_assertion a.status AssertionStatus.rejected
    then (if s.user == a.prepared_by
        then err Error.maker_is_checker
        else ok (record a { reviewed_by = some s.user }))
    else if is_active_now a
    then (if s.user == a.prepared_by
        then err Error.maker_is_checker
        else ok (record a {
          reviewed_by = some s.user;
          activated_by = some s.user;
          activated_at = now;
        }))
    else err Error.invalid_transition
assertion_transition s now AssertionStatus.active a =
    if is_assertion a.status AssertionStatus.superseded && is_set a.superseded_by
    then ok a
    else err Error.invalid_transition
assertion_transition s now _ a = err Error.invalid_transition

-- `validate` of a stored assertion, once its payload has passed
unfoldable pub validate_stored_assertion :
    Session → ℕ → Bool → QuantityAssertion → QuantityAssertion → Result QuantityAssertion
unfolding payload_changed assertion_transition
validate_stored_assertion s now service old a =
    if not service
    then err Error.service_only
    else if payload_changed old a
    then err Error.payload_immutable
    else if is_assertion a.status old.status
    then err Error.payload_immutable
    else assertion_transition s now old.status a

unfoldable pub validate_assertion_of :
    Session
    → ℕ
    → Bool
    → Option QuantityAssertion
    → QuantityAssertion
    → Db
    → Result QuantityAssertion
unfolding validate_stored_assertion validate_supersession
validate_assertion_of s now service none a db = after (validate_supersession a db) (ok a)
validate_assertion_of s now service (some old) a db = validate_stored_assertion s now service old a

-- FreskoContainerQuantityAssertion.validate: the assertion as it is stored
unfoldable pub validate_assertion :
    Session
    → ℕ
    → Bool
    → Option QuantityAssertion
    → QuantityAssertion
    → Db
    → Result QuantityAssertion
unfolding validate_payload validate_assertion_of
validate_assertion s now service old a db =
    after (validate_payload a.facts) (validate_assertion_of s now service old a db)

-- `doc.save()`: the stored row of its name is the one before
unfoldable pub save_assertion : Session → ℕ → Bool → QuantityAssertion → M QuantityAssertion
unfolding validate_assertion find
save_assertion s now service a = do
  saved ← reads λ db. validate_assertion s now service (find quantity_key a.name db.assertions) a db
  write_assertion saved
  pure saved

-- before_insert
unfoldable pub before_insert_assertion :
    Session → Bool → QuantityAssertion → Result QuantityAssertion
unfolding quantity_check
before_insert_assertion s service a =
    if not service
    then err Error.service_only
    else if not (is_assertion a.status AssertionStatus.draft)
    then err Error.must_start_draft
    else after (quantity_check a.quantity) (
        ok (record a {
          prepared_by = s.user;
          reviewed_by = none;
          activated_by = none;
          superseded_by = none;
        }))

-- `doc.insert()`, under the next name; assertion_key is unique
unfoldable pub insert_assertion : Session → Bool → (ℕ → QuantityAssertion) → M QuantityAssertion
unfolding before_insert_assertion validate_assertion any
insert_assertion s service f = do
  n ← fresh
  a ← reads λ _. before_insert_assertion s service (f n)
  saved ← reads λ db. validate_assertion s 0 service none a db
  reads λ db.
      throw_if (any (λ x. x.assertion_key == saved.assertion_key) db.assertions)
        Error.unique_violation
  write_assertion saved
  pure saved

-- on_trash
unfoldable pub trash_assertion : QuantityAssertion → Check
trash_assertion a = err Error.payload_immutable
