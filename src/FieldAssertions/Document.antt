-- ===== src/FieldAssertions/Document.antt =====
-- fresko_field_assertion.py: what every insert and save of a Field Assertion goes through.
use fresko_universe.Data.{
  RateFacts, FieldAssertion, Session, is_provenance, is_assertion, AssertionStatus,
}
use fresko_universe.Db.{
  Check, pass, throw_if, ◌then_check◌, M, ◌>>=◌, ◌>>◌, pure, reads, outward_key,
  field_assertion_key, write_field_assertion, fresh, after, ignore, Db, Result, ok, err, Error,
}
use fresko_universe.ExceptionRules.{same_quantity}
use fresko_universe.Prelude.{
  ℕ, Bool, false, ◌&&◌, ◌||◌, not, Option, none, some, ◌==◌, if◌then◌else◌, is_set, ◌=?◌, any, find,
}
use fresko_universe.Prelude.Int.{ltb_ℤ, ℤ, pos}

-- _canonical_decimal_or_none, and _canonical_decimal of the service, of a number: its text is not
-- modelled
unfoldable pub canonical_decimal : Option ℤ → Result (Option ℤ)
canonical_decimal none = ok none
canonical_decimal (some q) = if ltb_ℤ q (pos 0) then err Error.negative_rate else ok (some q)

-- The stored line of the Outward with that key.
unfoldable pub line_exists : ℕ → ℕ → Db → Bool
unfolding find any
line_exists outward key db = elim (find outward_key outward db.outwards) [
  | none ↦ false
  | some o ↦ any (λ l. l.line_key == key) o.lines
]

-- _validate_payload
unfoldable pub validate_rate_payload : RateFacts → Db → Check
unfolding canonical_decimal line_exists
validate_rate_payload f db =
    throw_if (not (is_set f.raw_value)) Error.raw_value_required
    then_check ignore (canonical_decimal f.rate)
    then_check (elim f.outward_line_key [
      | none ↦ pass
      | some key ↦ throw_if (not (line_exists f.outward key db)) Error.line_key_unknown
    ])

-- The same Outward and line.
unfoldable pub same_target : FieldAssertion → FieldAssertion → Bool
same_target a b = a.outward == b.outward && a.outward_line_key =? b.outward_line_key

abbrev pub is_active_rate : FieldAssertion → Bool
is_active_rate a = is_assertion a.status AssertionStatus.active

-- _validate_supersession
unfoldable pub validate_rate_supersession : FieldAssertion → Db → Check
unfolding find same_target
validate_rate_supersession a db = elim a.supersedes [
  | none ↦ pass
  | some n ↦
      throw_if (n == a.name) Error.other_scope
      then_check (elim (find field_assertion_key n db.field_assertions) [
        | none ↦ err Error.not_found
        | some prior ↦
            throw_if (not (same_target prior a)) Error.other_scope
            then_check throw_if (not (is_active_rate prior)) Error.supersedes_not_active
      ])
]

-- Some field of _PAYLOAD_FIELDS has changed.
unfoldable pub rate_payload_changed : FieldAssertion → FieldAssertion → Bool
rate_payload_changed old a =
    not (a.outward == old.outward)
    || not (a.outward_line_key =? old.outward_line_key)
    || not (is_provenance a.assertion_basis old.assertion_basis)
    || not (a.raw_value =? old.raw_value)
    || not (same_quantity a.rate old.rate)
    || not (a.currency =? old.currency)
    || not (a.rate_uom =? old.rate_uom)
    || not (a.evidence == old.evidence)
    || not (a.effective_at =? old.effective_at)
    || not (a.reason =? old.reason)
    || not (a.supersedes =? old.supersedes)
    || not (a.assertion_key == old.assertion_key)
    || not (a.payload_sha256 == old.payload_sha256)

-- The transitions of `validate`, from the stored status, with their stamps.
unfoldable pub rate_transition : Session → AssertionStatus → FieldAssertion → Result FieldAssertion
rate_transition s AssertionStatus.draft a =
    if not (is_assertion a.status AssertionStatus.review_pending)
    then err Error.invalid_transition
    else if not (s.user == a.prepared_by)
    then err Error.not_maker
    else ok (record a { asserted_by = some s.user })
rate_transition s AssertionStatus.review_pending a =
    if not (is_active_rate a || is_assertion a.status AssertionStatus.rejected)
    then err Error.invalid_transition
    else if s.user == a.prepared_by || a.asserted_by =? some s.user
    then err Error.maker_is_checker
    else if is_active_rate a
    then ok (record a { reviewed_by = some s.user; activated_by = some s.user })
    else ok (record a { reviewed_by = some s.user })
rate_transition s AssertionStatus.active a =
    if not (is_assertion a.status AssertionStatus.superseded)
    then err Error.invalid_transition
    else if is_set a.superseded_by
    then ok a
    else err Error.superseded_by_missing
rate_transition s _ a = err Error.invalid_transition

-- `validate` of a stored assertion, once its payload has passed
unfoldable pub validate_stored_rate :
    Session → Bool → FieldAssertion → FieldAssertion → Result FieldAssertion
unfolding rate_payload_changed rate_transition
validate_stored_rate s service old a =
    if not service
    then err Error.service_only
    else if rate_payload_changed old a
    then err Error.payload_immutable
    else if is_assertion a.status old.status
    then err Error.payload_immutable
    else rate_transition s old.status a

unfoldable pub validate_rate_of :
    Session → Bool → Option FieldAssertion → FieldAssertion → Db → Result FieldAssertion
unfolding validate_stored_rate validate_rate_supersession
validate_rate_of s service none a db = after (validate_rate_supersession a db) (ok a)
validate_rate_of s service (some old) a db = validate_stored_rate s service old a

-- FreskoFieldAssertion.validate: the assertion as it is stored
unfoldable pub validate_field_assertion :
    Session → Bool → Option FieldAssertion → FieldAssertion → Db → Result FieldAssertion
unfolding validate_rate_payload validate_rate_of
validate_field_assertion s service old a db =
    after (validate_rate_payload a.facts db) (validate_rate_of s service old a db)

-- `doc.save()`: the stored row of its name is the one before
unfoldable pub save_field_assertion : Session → Bool → FieldAssertion → M FieldAssertion
unfolding validate_field_assertion find
save_field_assertion s service a = do
  saved ← reads λ db.
      validate_field_assertion s service (find field_assertion_key a.name db.field_assertions) a db
  write_field_assertion saved
  pure saved

-- A known rate has its currency, its unit and its time.
unfoldable pub rate_terms : RateFacts → Check
rate_terms f =
    throw_if
      (is_set f.rate && not (is_set f.currency && is_set f.rate_uom && is_set f.effective_at))
      Error.rate_terms_required

-- before_insert
unfoldable pub before_insert_rate : Session → Bool → FieldAssertion → Result FieldAssertion
unfolding canonical_decimal rate_terms
before_insert_rate s service a =
    if not service
    then err Error.service_only
    else if not (is_assertion a.status AssertionStatus.draft)
    then err Error.must_start_draft
    else after (ignore (canonical_decimal a.rate) then_check rate_terms a.facts) (
        ok (record a {
          prepared_by = s.user;
          asserted_by = none;
          reviewed_by = none;
          activated_by = none;
          superseded_by = none;
        }))

-- `doc.insert()`, under the next name; assertion_key is unique
unfoldable pub insert_field_assertion : Session → Bool → (ℕ → FieldAssertion) → M FieldAssertion
unfolding before_insert_rate validate_field_assertion any
insert_field_assertion s service f = do
  n ← fresh
  a ← reads λ _. before_insert_rate s service (f n)
  saved ← reads λ db. validate_field_assertion s service none a db
  reads λ db.
      throw_if (any (λ x. x.assertion_key == saved.assertion_key) db.field_assertions)
        Error.unique_violation
  write_field_assertion saved
  pure saved

-- on_trash
unfoldable pub trash_field_assertion : FieldAssertion → Check
trash_field_assertion a = err Error.payload_immutable
