-- ===== src/Outwards/Opening.antt =====
-- outward_service.py: the Exceptions that a post opens, and those that a reversal settles.
use fresko_universe.Data.{
  no_scope, OutwardLine, Outward, ExceptionDoc, is_exception, is_outward, is_movement, Severity,
  ExceptionStatus, ExceptionType, OutwardStatus, MovementType,
}
use fresko_universe.Db.{M, ◌>>=◌, ◌>>◌, pure, reads, Db, ok}
use fresko_universe.DealDoc.{is_open}
use fresko_universe.ExceptionRules.{outward_service, save_exception, insert_exception}
use fresko_universe.Prelude.{
  ℕ, Bool, true, false, ◌&&◌, ◌||◌, not, Option, none, some, List, [], ◌∷◌, ◌==◌, if◌then◌else◌,
  Ref, is_set, ◌=?◌, any, keep,
}

-- An open Exception of the Outward of that type.
unfoldable pub open_on_outward : ℕ → ExceptionType → ExceptionDoc → Bool
unfolding is_open
open_on_outward n kind x =
    x.outward =? some n && is_exception x.exception_type kind && is_open x.status

-- The new Exception of _ensure_open_exception and of _ensure_duplicate_gatepass_exceptions.
unfoldable pub outward_exception : Outward → ExceptionType → Severity → Ref → ℕ → ExceptionDoc
outward_exception o kind severity related n = record {
  name = n;
  exception_type = kind;
  severity = severity;
  status = ExceptionStatus.open_;
  deal = none;
  container = some o.container;
  collection = none;
  money_company = none;
  money_scope_key = none;
  commercial_scope_key = none;
  sale = none;
  scope = record no_scope { outward = some o.name; related_outward = related };
}

-- Nothing where there is one already, an insert where there is none.
unfoldable pub open_unless : Bool → Outward → ExceptionType → Severity → Ref → M (Unit {0})
unfolding insert_exception outward_exception
open_unless true o kind severity related = pure tt
open_unless false o kind severity related =
    (insert_exception outward_service (outward_exception o kind severity related) >> pure tt)

-- _ensure_open_exception
unfoldable pub ensure_outward_exception : Outward → ExceptionType → M (Unit {0})
unfolding any open_on_outward open_unless
ensure_outward_exception o kind = do
  found ← reads λ db. ok (any (open_on_outward o.name kind) db.exceptions)
  open_unless found o kind Severity.material none

unfoldable pub ensure_if : Bool → Outward → ExceptionType → M (Unit {0})
unfolding ensure_outward_exception
ensure_if true o kind = ensure_outward_exception o kind
ensure_if false o kind = pure tt

-- The posted Outwards of the Container with the same gatepass.
unfoldable pub prior_gatepasses : Outward → Db → List Outward
unfolding keep
prior_gatepasses o db =
    if is_set o.gatepass_comparison_key
    then keep
        (λ x.
          x.container == o.container
          && is_movement x.movement_type MovementType.outward
          && is_outward x.status OutwardStatus.posted
          && x.gatepass_comparison_key =? o.gatepass_comparison_key
          && not (x.name == o.name))
        db.outwards
    else []

-- The pair has its Exception, whatever became of it.
unfoldable pub has_duplicate : ℕ → ℕ → Db → Bool
unfolding any
has_duplicate n prior db =
    any
      (λ x.
        is_exception x.exception_type ExceptionType.duplicate_gatepass
        && x.outward =? some n
        && x.related_outward =? some prior)
      db.exceptions

unfoldable pub open_duplicates : Outward → List Outward → M (Unit {0})
unfolding has_duplicate open_unless
open_duplicates o [] = pure tt
open_duplicates o (x ∷ xs) = do
  found ← reads λ db. ok (has_duplicate o.name x.name db)
  open_unless found o ExceptionType.duplicate_gatepass Severity.material (some x.name)
  open_duplicates o xs

-- _ensure_duplicate_gatepass_exceptions
unfoldable pub ensure_duplicate_gatepass_exceptions : Outward → M (Unit {0})
unfolding prior_gatepasses open_duplicates
ensure_duplicate_gatepass_exceptions o = do
  prior ← reads λ db. ok (prior_gatepasses o db)
  open_duplicates o prior

-- The Exceptions of _resolve_reversed_outward_exceptions.
unfoldable pub settled_by_reversal : ℕ → ExceptionDoc → Bool
unfolding open_on_outward
settled_by_reversal n x =
    open_on_outward n ExceptionType.outward_unpriced x
    || open_on_outward n ExceptionType.outward_without_deal x
    || open_on_outward n ExceptionType.lot_unresolved x

unfoldable pub resolve_each : List ExceptionDoc → M (Unit {0})
unfolding save_exception
resolve_each [] = pure tt
resolve_each (x ∷ xs) = do
  save_exception outward_service (record x { status = ExceptionStatus.resolved })
  resolve_each xs

-- _resolve_reversed_outward_exceptions
unfoldable pub resolve_reversed_outward_exceptions : ℕ → M (Unit {0})
unfolding keep settled_by_reversal resolve_each
resolve_reversed_outward_exceptions n = do
  xs ← reads λ db. ok (keep (settled_by_reversal n) db.exceptions)
  resolve_each xs

-- Some line names no lot.
unfoldable pub has_unmapped : List OutwardLine → Bool
unfolding any
has_unmapped = any λ l. not (is_set l.lot_no)

-- What follows the post.
unfoldable pub after_post : Outward → Option Outward → M (Unit {0})
unfolding ensure_outward_exception ensure_if has_unmapped ensure_duplicate_gatepass_exceptions
    resolve_reversed_outward_exceptions
after_post o (some original) = resolve_reversed_outward_exceptions original.name
after_post o none = do
  ensure_outward_exception o ExceptionType.outward_unpriced
  ensure_if (not (is_set o.deal)) o ExceptionType.outward_without_deal
  ensure_if (has_unmapped o.lines) o ExceptionType.lot_unresolved
  ensure_duplicate_gatepass_exceptions o
