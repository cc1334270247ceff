-- ===== src/Quantities/Decisions.antt =====
-- quantity_assertion_service.py: the decisions on an assertion and on a variance.
use fresko_universe.Access.{assert_can_post_outward}
use fresko_universe.Data.{
  QuantityAssertion, ExceptionDoc, Session, Digests, is_exception_status, is_exception,
  is_assertion, ExceptionStatus, ExceptionType, AssertionStatus, Review, VarianceDecision,
}
use fresko_universe.Db.{
  throw_if, M, ◌>>=◌, ◌>>◌, pure, reads, check, get_exception, Db, Result, ok, err, Error,
}
use fresko_universe.DealDoc.{is_open}
use fresko_universe.ExceptionRules.{quantity_service, save_exception}
use fresko_universe.Prelude.{
  ℕ, Bool, true, false, ◌||◌, not, ◌==◌, if◌then◌else◌, Ref, is_set, ◌=?◌,
}
use fresko_universe.Quantities.Document.{is_active_now, save_assertion}
use fresko_universe.Quantities.Reviewing.{locked_assertion, activate_over}
use fresko_universe.Quantities.Variance.{ensure_variance}

-- The status that a reviewed assertion already has is the one that the decision gives.
unfoldable pub terminal_replay : Review → QuantityAssertion → Result QuantityAssertion
terminal_replay Review.activate a = if is_active_now a then ok a else err Error.different_decision
terminal_replay _ a = if is_active_now a then err Error.different_decision else ok a

unfoldable pub is_terminal : QuantityAssertion → Bool
is_terminal a = is_active_now a || is_assertion a.status AssertionStatus.rejected

-- The two decisions on an assertion that waits.
unfoldable pub decide_review :
    Digests → Session → ℕ → Db → Review → QuantityAssertion → M QuantityAssertion
unfolding save_assertion activate_over ensure_variance
decide_review g s now before Review.activate a = do
  activate_over s now before a a.supersedes
  saved ← save_assertion s now true (record a { status = AssertionStatus.active })
  ensure_variance g a.container
  pure saved
decide_review g s now before Review.reject a =
    save_assertion s now true (record a { status = AssertionStatus.rejected })
decide_review g s now before Review.invalid a = reads λ _. err Error.invalid_decision

abbrev pub is_invalid_review : Review → Bool
is_invalid_review Review.invalid = true
is_invalid_review _ = false

-- review_quantity_assertion, at the time `now`
unfoldable pub review_quantity_assertion :
    Digests → Session → ℕ → Db → ℕ → Review → M QuantityAssertion
unfolding assert_can_post_outward locked_assertion is_terminal terminal_replay decide_review
review_quantity_assertion g s now before n decision = do
  check (assert_can_post_outward s)
  a ← locked_assertion before n
  check (throw_if (is_invalid_review decision) Error.invalid_decision)
  if is_terminal a then (reads λ _. terminal_replay decision a) else (do
    check (throw_if (not (is_assertion a.status AssertionStatus.review_pending)) Error.wrong_status)
    check (throw_if (a.prepared_by == s.user) Error.maker_is_checker)
    decide_review g s now before decision a)

-- The status that a decision on a variance gives.
abbrev pub variance_status : VarianceDecision → Result ExceptionStatus
variance_status VarianceDecision.resolve = ok ExceptionStatus.resolved
variance_status VarianceDecision.waive = ok ExceptionStatus.waived
variance_status VarianceDecision.invalid = err Error.invalid_decision

-- The checks and the save of resolve_physical_variance, on the row that is locked.
unfoldable pub settle_variance : ExceptionStatus → ExceptionDoc → M ExceptionDoc
unfolding save_exception is_open
settle_variance target x = do
  check (
      throw_if (not (is_exception x.exception_type ExceptionType.physical_variance))
        Error.not_a_variance)
  check (throw_if (not (is_set x.declared_quantity_assertion)) Error.not_a_variance)
  if is_exception_status x.status target then pure x else (do
    check (
        throw_if
          (is_exception_status x.status ExceptionStatus.resolved
            || is_exception_status x.status ExceptionStatus.waived)
          Error.different_decision)
    check (throw_if (not (is_open x.status)) Error.wrong_status)
    save_exception quantity_service (record x { status = target })
    pure (record x { status = target }))

-- resolve_physical_variance; `notes` are the resolution notes
unfoldable pub resolve_physical_variance :
    Session → Db → ℕ → VarianceDecision → Ref → M ExceptionDoc
unfolding assert_can_post_outward settle_variance
resolve_physical_variance s before n decision notes = do
  check (assert_can_post_outward s)
  target ← reads λ _. variance_status decision
  check (throw_if (not (is_set notes)) Error.notes_required)
  probe ← reads λ _. get_exception n before
  check (throw_if (not (is_set probe.declared_quantity_assertion)) Error.not_a_variance)
  x ← reads (get_exception n)
  check (throw_if (not (x.container =? probe.container)) Error.container_changed)
  settle_variance target x
