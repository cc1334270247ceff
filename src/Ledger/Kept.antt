-- ===== src/Ledger/Kept.antt =====
-- Over a whole run, what is posted stays, events and reversals are single, and one assertion of a
-- scope is active.
use fresko_universe.Data.{Digests}
use fresko_universe.Db.{Db}
use fresko_universe.Db.Frame.{SameStock-refl, ended, SameStock}
use fresko_universe.ExceptionRules.{no_service, save_exception}
use fresko_universe.FieldAssertions.{
  review_field_assertion, create_rate_assertion, submit_field_assertion,
}
use fresko_universe.FieldAssertions.Activating.{review_field_assertion-KeepsRates}
use fresko_universe.FieldAssertions.Beside.{
  create_rate_assertion-Beside, submit_field_assertion-Beside, review_field_assertion-Beside,
}
use fresko_universe.FieldAssertions.Drafting.{
  create_rate_assertion-KeepsRates, submit_field_assertion-KeepsRates,
}
use fresko_universe.Ledger.{
  LedgerStep, Runs, by_request, by_outward, by_reversal, by_submission, by_posting, by_assertion,
  by_assertion_submission, by_review, by_variance, by_settling, by_rate, by_rate_submission,
  by_rate_review, by_exception_desk, start, step,
}
use fresko_universe.Ledger.Parts.{
  same_ledger, unchanged, of_exceptions, of_assertions, of_rates, of_added, of_moved, LedgerKept,
}
use fresko_universe.Ledger.Quiet.{Step-Quiet}
use fresko_universe.Ledger.Rows.{RowsKept-trans}
use fresko_universe.Outwards.Added.{create_outward-Added}
use fresko_universe.Outwards.AfterPost.{save_exception-Relates, SameStock-Closed}
use fresko_universe.Outwards.Posted.{post_outward-PostOutcome}
use fresko_universe.Outwards.Reversed.{create_outward_reversal-Mirrors}
use fresko_universe.Outwards.Stock.{with_row}
use fresko_universe.Outwards.Submitted.{submit_outward_for_review-ok}
use fresko_universe.Prelude.{refl, sym, subst, inl, inr}
use fresko_universe.Quantities.{
  ensure_physical_variance, create_quantity_assertion, submit_quantity_assertion,
  review_quantity_assertion, resolve_physical_variance,
}
use fresko_universe.Quantities.Aside.{
  create_quantity_assertion-Aside, submit_quantity_assertion-Aside, review_quantity_assertion-Aside,
  ensure_physical_variance-Relates, resolve_physical_variance-Relates,
}
use fresko_universe.Quantities.Drafting.{
  create_quantity_assertion-KeepsSole, submit_quantity_assertion-KeepsSole,
}
use fresko_universe.Quantities.Reviewed.{review_quantity_assertion-ReviewOutcome}
use fresko_universe.Revisions.{Texts}

LedgerStep-LedgerKept :
    {g : Digests} {t : Texts} {db db' : Db} → LedgerStep g t db db' → LedgerKept db db'
LedgerStep-LedgerKept {g} {t} {db} {db'} (by_request st) =
    let q = Step-Quiet st in same_ledger db db' q.outwards q.assertions q.field_assertions
LedgerStep-LedgerKept {g} {t} {db} {db'} (by_outward s before r o new e) =
    elim (create_outward-Added g s before r o db db' e) [
      | inl same ↦ unchanged db db' same
      | inr a ↦ of_added o db db' new a.name a.free a.left
    ]
LedgerStep-LedgerKept {g} {t} {db} {db'} (by_reversal s before r o new e) =
    elim (create_outward_reversal-Mirrors g s before r o db db' e).outcome [
      | inl a ↦ unchanged db db' a.same
      | inr a ↦ of_added o db db' new a.draft.name a.free a.draft.left
    ]
LedgerStep-LedgerKept {g} {t} {db} {db'} (by_submission s before n o e) =
    elim (submit_outward_for_review-ok s before n o db db' e) [
      | inl same ↦ unchanged db db' same
      | inr (old, a) ↦
          of_moved old o n db db' a.found (λ p. (let q = a.was_draft in absurd (cc))) a.name a.facts
            a.event (subst (SameStock (with_row db o)) a.left (SameStock-refl (with_row db o)))
    ]
LedgerStep-LedgerKept {g} {t} {db} {db'} (by_posting s before n o e) =
    let w = post_outward-PostOutcome s before n o db db' e in
    elim w.outcome [
      | inl (_, _, same) ↦ unchanged db db' (sym same)
      | inr a ↦
          of_moved w.old o n db db' w.found (λ p. (let q = a.waited in absurd (cc))) a.name a.facts
            a.event a.left
    ]
LedgerStep-LedgerKept {g} {t} {db} {db'} (by_assertion s before r a e) =
    of_assertions (create_quantity_assertion g s before r) db db' a
      (create_quantity_assertion-Aside g s before r)
      (ended (create_quantity_assertion g s before r) db db' a
        (create_quantity_assertion-KeepsSole g s before r) e).sole
      e
LedgerStep-LedgerKept {g} {t} {db} {db'} (by_assertion_submission s before n a e) =
    of_assertions (submit_quantity_assertion s before n) db db' a
      (submit_quantity_assertion-Aside s before n)
      (ended (submit_quantity_assertion s before n) db db' a
        (submit_quantity_assertion-KeepsSole s before n) e).sole
      e
LedgerStep-LedgerKept {g} {t} {db} {db'} (by_review s now before n decision a e) =
    of_assertions (review_quantity_assertion g s now before n decision) db db' a
      (review_quantity_assertion-Aside g s now before n decision)
      (review_quantity_assertion-ReviewOutcome g s now before n decision a db db' e).sole e
LedgerStep-LedgerKept {g} {t} {db} {db'} (by_variance s n x e) =
    of_exceptions (ensure_physical_variance g s n) db db' x
      (ensure_physical_variance-Relates SameStock-Closed g s n) e
LedgerStep-LedgerKept {g} {t} {db} {db'} (by_settling s before n d notes x e) =
    of_exceptions (resolve_physical_variance s before n d notes) db db' x
      (resolve_physical_variance-Relates SameStock-Closed s before n d notes) e
LedgerStep-LedgerKept {g} {t} {db} {db'} (by_rate s before r a e) =
    of_rates (create_rate_assertion g s before r) db db' a
      (create_rate_assertion-Beside g s before r) (create_rate_assertion-KeepsRates g s before r) e
LedgerStep-LedgerKept {g} {t} {db} {db'} (by_rate_submission s before n a e) =
    of_rates (submit_field_assertion s before n) db db' a (submit_field_assertion-Beside s before n)
      (submit_field_assertion-KeepsRates s before n) e
LedgerStep-LedgerKept {g} {t} {db} {db'} (by_rate_review s before n decision a e) =
    of_rates (review_field_assertion s before n decision) db db' a
      (review_field_assertion-Beside s before n decision)
      (review_field_assertion-KeepsRates s before n decision) e
LedgerStep-LedgerKept {g} {t} {db} {db'} (by_exception_desk x e) =
    of_exceptions (save_exception no_service x) db db' tt
      (save_exception-Relates SameStock-Closed no_service x) e

-- After any run of successful requests on Deals, Containers, Outwards and their assertions (a new
-- Outward being named as no other is), every Outward that was posted is stored as it was; no two
-- Outwards share a source event, and no two reverse one Outward, if no two did before; and if each
-- Container, basis and unit had one active quantity assertion at most, or each Outward and line one
-- active rate, that is so afterwards.
pub Runs-LedgerKept : {g : Digests} {t : Texts} {db db' : Db} → Runs g t db db' → LedgerKept db db'
Runs-LedgerKept {g} {t} {db} start = unchanged db db refl
Runs-LedgerKept {g} {t} {db} (step {x} {y} r st) =
    let h = Runs-LedgerKept r in
    let k = LedgerStep-LedgerKept st in
    record {
      rows = RowsKept-trans db.outwards x.outwards y.outwards h.rows k.rows;
      sole = λ u. k.sole (h.sole u);
      rates = λ u. k.rates (h.rates u);
    }
