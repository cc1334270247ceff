-- ===== src/FieldAssertions/Reviewing.antt =====
-- outward_service.py: a rate assertion is reviewed, and a complete pricing settles its Exception.
use fresko_universe.Access.{assert_can_post_outward}
use fresko_universe.Data.{
  OutwardLine, Outward, FieldAssertion, Session, is_assertion, ExceptionType, AssertionStatus,
  Review,
}
use fresko_universe.Db.{
  Check, throw_if, ◌then_check◌, M, ◌>>=◌, ◌>>◌, pure, reads, check, get_field_assertion, Db,
  Result, ok, err, Error,
}
use fresko_universe.FieldAssertions.Creating.{rate_uom_matches, load_rate_under_lock}
use fresko_universe.FieldAssertions.Document.{same_target, is_active_rate, save_field_assertion}
use fresko_universe.Outwards.{open_on_outward, resolve_each}
use fresko_universe.Prelude.{
  ℕ, Bool, true, ◌&&◌, ◌||◌, not, none, some, List, [], ◌∷◌, ◌==◌, if◌then◌else◌, Ref, is_set, ◌=?◌,
  any, keep,
}
use fresko_universe.Quantities.{is_invalid_review}

-- The active assertions of the same Outward and line.
unfoldable pub active_rates : FieldAssertion → Db → List FieldAssertion
unfolding keep same_target
active_rates a db = keep (λ x. same_target x a && is_active_rate x) db.field_assertions

-- An assertion that superseded this one is, or was, active.
unfoldable pub has_rate_successor : ℕ → Db → Bool
unfolding any
has_rate_successor n db =
    any
      (λ a.
        a.supersedes =? some n
        && (is_active_rate a || is_assertion a.status AssertionStatus.superseded))
      db.field_assertions

-- The checks of _activate_assertion on the assertion that is superseded.
unfoldable pub prior_checks : FieldAssertion → FieldAssertion → Db → Check
unfolding same_target any active_rates has_rate_successor
prior_checks a prior db =
    throw_if (not (is_active_rate prior)) Error.supersedes_not_active
    then_check throw_if (not (same_target prior a)) Error.other_scope
    then_check throw_if (any (λ x. not (x.name == prior.name)) (active_rates a db))
        Error.sole_active_required
    then_check throw_if (has_rate_successor prior.name db) Error.successor_exists

unfoldable pub supersede_rate : Session → FieldAssertion → FieldAssertion → M (Unit {0})
unfolding prior_checks save_field_assertion
supersede_rate s a prior = do
  reads (prior_checks a prior)
  save_field_assertion s true
      (record prior { status = AssertionStatus.superseded; superseded_by = some a.name })
  pure tt

unfoldable pub activate_rate_over : Session → FieldAssertion → Ref → M (Unit {0})
unfolding supersede_rate any active_rates
activate_rate_over s a none =
    reads λ db. throw_if (any (λ _. true) (active_rates a db)) Error.active_exists
activate_rate_over s a (some n) = do prior ← reads (get_field_assertion n); supersede_rate s a prior

-- _activate_assertion
unfoldable pub activate_rate : Session → FieldAssertion → Outward → M (Unit {0})
unfolding rate_uom_matches activate_rate_over
activate_rate s a o = do
  check (rate_uom_matches o.lines a.outward_line_key a.rate a.rate_uom)
  activate_rate_over s a a.supersedes

-- The active assertions of the Outward with a known rate and its terms.
unfoldable pub priced_rates : ℕ → Db → List FieldAssertion
unfolding keep
priced_rates outward db =
    keep
      (λ a.
        a.outward == outward
        && is_active_rate a
        && is_set a.rate
        && is_set a.currency
        && is_set a.rate_uom
        && is_set a.effective_at)
      db.field_assertions

-- Some row is about the whole Outward.
unfoldable pub has_header_rate : List FieldAssertion → Bool
unfolding any
has_header_rate = any λ a. not (is_set a.outward_line_key)

-- `line_keys.issubset(covered)`
unfoldable pub all_covered : List OutwardLine → List FieldAssertion → Bool
unfolding any
all_covered [] priced = true
all_covered (l ∷ ls) priced =
    any (λ a. a.outward_line_key =? some l.line_key) priced && all_covered ls priced

unfoldable pub is_fully_priced : Outward → Db → Bool
unfolding priced_rates has_header_rate all_covered
is_fully_priced o db =
    has_header_rate (priced_rates o.name db) || all_covered o.lines (priced_rates o.name db)

-- _resolve_unpriced_when_complete
unfoldable pub resolve_unpriced_when_complete : Outward → M (Unit {0})
unfolding is_fully_priced keep open_on_outward resolve_each
resolve_unpriced_when_complete o = do
  complete ← reads λ db. ok (is_fully_priced o db)
  if complete
      then (do
        xs ←
            reads
              λ db. ok (keep (open_on_outward o.name ExceptionType.outward_unpriced) db.exceptions)
        resolve_each xs)
      else pure tt

-- The status that a reviewed assertion has is the one that the decision gives.
unfoldable pub rate_terminal_replay : Review → FieldAssertion → Result FieldAssertion
rate_terminal_replay Review.activate a =
    if is_active_rate a then ok a else err Error.different_decision
rate_terminal_replay _ a = if is_active_rate a then err Error.different_decision else ok a

-- The two decisions on an assertion that waits.
unfoldable pub decide_rate : Session → Review → FieldAssertion → Outward → M FieldAssertion
unfolding activate_rate save_field_assertion resolve_unpriced_when_complete
decide_rate s Review.activate a o = do
  activate_rate s a o
  saved ← save_field_assertion s true (record a {
    reviewed_by = some s.user;
    status = AssertionStatus.active;
    activated_by = some s.user;
  })
  resolve_unpriced_when_complete o
  pure saved
decide_rate s Review.reject a o =
    save_field_assertion s true
      (record a { reviewed_by = some s.user; status = AssertionStatus.rejected })
decide_rate s Review.invalid a o = reads λ _. err Error.invalid_decision

-- The rest of review_field_assertion, on the assertion that is locked.
unfoldable pub review_locked_rate : Session → Review → FieldAssertion → Outward → M FieldAssertion
unfolding rate_terminal_replay decide_rate
review_locked_rate s decision a o = do
  check (throw_if (is_invalid_review decision) Error.invalid_decision)
  if is_active_rate a || is_assertion a.status AssertionStatus.rejected
      then (reads λ _. rate_terminal_replay decision a)
      else (do
        check (
            throw_if (not (is_assertion a.status AssertionStatus.review_pending))
              Error.wrong_status)
        check (throw_if (a.prepared_by == s.user) Error.maker_is_checker)
        decide_rate s decision a o)

-- review_field_assertion
unfoldable pub review_field_assertion : Session → Db → ℕ → Review → M FieldAssertion
unfolding assert_can_post_outward load_rate_under_lock review_locked_rate
review_field_assertion s before n decision = do
  check (assert_can_post_outward s)
  found ← load_rate_under_lock before n
  review_locked_rate s decision found.0 found.1
