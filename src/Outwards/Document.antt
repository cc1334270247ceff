-- ===== src/Outwards/Document.antt =====
-- fresko_outward.py: what every insert and save of an Outward goes through.
use fresko_universe.Data.{
  OutwardLine, Outward, Session, LedgerFlags, is_outward, is_movement, OutwardStatus, MovementType,
}
use fresko_universe.Db.{
  Check, pass, throw_if, ◌then_check◌, M, ◌>>=◌, ◌>>◌, pure, reads, outward_key, write_outward,
  fresh, after, Db, Result, ok, err, Error,
}
use fresko_universe.Prelude.{
  ℕ, Bool, ◌&&◌, ◌||◌, not, Option, none, some, List, [], ◌∷◌, ◌==◌, if◌then◌else◌, is_set, ◌=?◌,
  any, find,
}
use fresko_universe.Prelude.Int.{leb_ℤ, pos}

-- _validate_movement_shape
unfoldable pub validate_movement_shape : Outward → Check
validate_movement_shape o =
    throw_if (is_movement o.movement_type MovementType.reversal && not (is_set o.reverses_outward))
      Error.reverses_required
    then_check throw_if
        (is_movement o.movement_type MovementType.outward && is_set o.reverses_outward)
        Error.reverses_forbidden
    then_check throw_if (o.reverses_outward =? some o.name) Error.reverses_itself

-- One row of _validate_lines, after the rows of these keys.
unfoldable pub validate_outward_line : List ℕ → OutwardLine → Check
unfolding any
validate_outward_line seen l =
    throw_if (any (λ k. k == l.line_key) seen) Error.duplicate_line
    then_check throw_if (leb_ℤ l.qty (pos 0)) Error.line_qty_not_positive
    then_check throw_if (not (is_set l.uom)) Error.line_uom_required
    then_check throw_if (not (is_set l.raw_qty_text && is_set l.raw_uom_text))
        Error.line_text_required

unfoldable pub validate_outward_rows : List ℕ → List OutwardLine → Check
unfolding validate_outward_line
validate_outward_rows seen [] = pass
validate_outward_rows seen (l ∷ ls) =
    validate_outward_line seen l then_check validate_outward_rows (l.line_key ∷ seen) ls

-- _validate_lines
unfoldable pub validate_outward_lines : List OutwardLine → Check
unfolding validate_outward_rows
validate_outward_lines [] = err Error.outward_lines_required
validate_outward_lines (l ∷ ls) = validate_outward_rows [] (l ∷ ls)

-- The transitions of FreskoOutward.validate, from the stored status, with their stamps.
unfoldable pub outward_transition : Session → LedgerFlags → OutwardStatus → Outward → Result Outward
outward_transition s flags OutwardStatus.draft o =
    if not (is_outward o.status OutwardStatus.review_pending)
    then err Error.invalid_transition
    else if not flags.allow_submit_for_review
    then err Error.service_only
    else if not (s.user == o.prepared_by)
    then err Error.not_maker
    else ok (record o { submitted_by = some s.user })
outward_transition s flags OutwardStatus.review_pending o =
    if not (is_outward o.status OutwardStatus.posted)
    then err Error.invalid_transition
    else if not flags.allow_post
    then err Error.service_only
    else if s.user == o.prepared_by || o.submitted_by =? some s.user
    then err Error.maker_is_checker
    else ok (record o { posted_by = some s.user })
outward_transition s flags OutwardStatus.posted o = err Error.invalid_transition

-- FreskoOutward.validate of a stored Outward, once its shape and its lines have passed
unfoldable pub validate_stored_outward :
    Session → LedgerFlags → Option Outward → Outward → Result Outward
unfolding outward_transition
validate_stored_outward s flags none o = ok o
validate_stored_outward s flags (some old) o =
    if not flags.in_service
    then err Error.service_only
    else if is_outward old.status OutwardStatus.posted
    then err Error.posted_immutable
    else if is_outward o.status old.status
    then err Error.payload_immutable
    else outward_transition s flags old.status o

-- FreskoOutward.validate: the Outward as it is stored
unfoldable pub validate_outward : Session → LedgerFlags → Option Outward → Outward → Result Outward
unfolding validate_movement_shape validate_outward_lines validate_stored_outward
validate_outward s flags old o =
    after (validate_movement_shape o then_check validate_outward_lines o.lines)
      (validate_stored_outward s flags old o)

-- `doc.save()`: the stored row of its name is the one before
unfoldable pub save_outward : Session → LedgerFlags → Outward → M Outward
unfolding validate_outward find
save_outward s flags o = do
  saved ← reads λ db. validate_outward s flags (find outward_key o.name db.outwards) o
  write_outward saved
  pure saved

-- FreskoOutward.before_insert
unfoldable pub before_insert_outward : Session → LedgerFlags → Outward → Result Outward
before_insert_outward s flags o =
    if not flags.in_service
    then err Error.service_only
    else if not (is_outward o.status OutwardStatus.draft)
    then err Error.must_start_draft
    else ok (record o { prepared_by = s.user; submitted_by = none; posted_by = none })

-- The columns source_event_key and reverses_outward are unique.
unfoldable pub outward_taken : Outward → Db → Bool
unfolding any
outward_taken o db =
    any
      (λ x.
        x.source_event_key == o.source_event_key
        || (is_set o.reverses_outward && x.reverses_outward =? o.reverses_outward))
      db.outwards

-- `doc.insert()`, under the next name; the unique columns are tested last
unfoldable pub insert_outward : Session → LedgerFlags → (ℕ → Outward) → M Outward
unfolding before_insert_outward validate_outward outward_taken
insert_outward s flags f = do
  n ← fresh
  o ← reads λ _. before_insert_outward s flags (f n)
  saved ← reads λ _. validate_outward s flags none o
  reads λ db. throw_if (outward_taken saved db) Error.unique_violation
  write_outward saved
  pure saved

-- on_trash
unfoldable pub trash_outward : Outward → Check
trash_outward o = err Error.posted_immutable
