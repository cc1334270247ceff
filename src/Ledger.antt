-- ===== src/Ledger.antt =====
-- A run of the whole application: the requests of Lifecycle, and those on Outwards and their
-- assertions, one after the other, of any users. Digests and texts of numbers are parameters.
pub mod Rows
pub mod Quiet
pub mod Parts
pub mod Kept
use fresko_universe.Data.{
  QuantityAssertion, Outward, FieldAssertion, ExceptionDoc, Session, Digests, Review,
  VarianceDecision,
}
use fresko_universe.Db.{outward_key, Db, ok}
use fresko_universe.ExceptionRules.{no_service, save_exception}
use fresko_universe.FieldAssertions.{
  review_field_assertion, create_rate_assertion, submit_field_assertion, RateRequest,
}
use fresko_universe.Lifecycle.{Step}
use fresko_universe.Outwards.{
  create_outward_reversal, ReversalRequest, post_outward, create_outward, submit_outward_for_review,
  OutwardRequest,
}
use fresko_universe.Prelude.{ℕ, ◌≡◌, none, Ref, find}
use fresko_universe.Quantities.{
  ensure_physical_variance, review_quantity_assertion, resolve_physical_variance,
  create_quantity_assertion, submit_quantity_assertion, QuantityRequest,
}
use fresko_universe.Revisions.{Texts}

-- A request that succeeds. A new Outward gets a name that no Outward has.
pub data LedgerStep (g : Digests) (t : Texts) (db db' : Db) : Type 0 where
  by_request : Step t db db' → LedgerStep g t db db'
  by_outward :
      (s : Session) (before : Db) (r : OutwardRequest) (o : Outward)
      → find outward_key db.next_name db.outwards ≡ none
      → create_outward g s before r db ≡ ok (o, db')
      → LedgerStep g t db db'
  by_reversal :
      (s : Session) (before : Db) (r : ReversalRequest) (o : Outward)
      → find outward_key db.next_name db.outwards ≡ none
      → create_outward_reversal g s before r db ≡ ok (o, db')
      → LedgerStep g t db db'
  by_submission :
      (s : Session) (before : Db) (n : ℕ) (o : Outward)
      → submit_outward_for_review s before n db ≡ ok (o, db')
      → LedgerStep g t db db'
  by_posting :
      (s : Session) (before : Db) (n : ℕ) (o : Outward)
      → post_outward s before n db ≡ ok (o, db')
      → LedgerStep g t db db'
  by_assertion :
      (s : Session) (before : Db) (r : QuantityRequest) (a : QuantityAssertion)
      → create_quantity_assertion g s before r db ≡ ok (a, db')
      → LedgerStep g t db db'
  by_assertion_submission :
      (s : Session) (before : Db) (n : ℕ) (a : QuantityAssertion)
      → submit_quantity_assertion s before n db ≡ ok (a, db')
      → LedgerStep g t db db'
  by_review :
      (s : Session) (now : ℕ) (before : Db) (n : ℕ) (decision : Review) (a : QuantityAssertion)
      → review_quantity_assertion g s now before n decision db ≡ ok (a, db')
      → LedgerStep g t db db'
  by_variance :
      (s : Session) (n : ℕ) (x : Ref)
      → ensure_physical_variance g s n db ≡ ok (x, db')
      → LedgerStep g t db db'
  by_settling :
      (s : Session) (before : Db) (n : ℕ) (d : VarianceDecision) (notes : Ref) (x : ExceptionDoc)
      → resolve_physical_variance s before n d notes db ≡ ok (x, db')
      → LedgerStep g t db db'
  by_rate :
      (s : Session) (before : Db) (r : RateRequest) (a : FieldAssertion)
      → create_rate_assertion g s before r db ≡ ok (a, db')
      → LedgerStep g t db db'
  by_rate_submission :
      (s : Session) (before : Db) (n : ℕ) (a : FieldAssertion)
      → submit_field_assertion s before n db ≡ ok (a, db')
      → LedgerStep g t db db'
  by_rate_review :
      (s : Session) (before : Db) (n : ℕ) (decision : Review) (a : FieldAssertion)
      → review_field_assertion s before n decision db ≡ ok (a, db')
      → LedgerStep g t db db'
  by_exception_desk :
      (x : ExceptionDoc) → save_exception no_service x db ≡ ok (tt, db') → LedgerStep g t db db'

-- Any number of steps.
pub data Runs (g : Digests) (t : Texts) (db : Db) : Db → Type 0 where
  start : Runs g t db db
  step : {x y : Db} → Runs g t db x → LedgerStep g t x y → Runs g t db y
