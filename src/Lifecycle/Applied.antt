-- ===== src/Lifecycle/Applied.antt =====
-- Over a whole run, an applied Revision stays as it is, and is not applied again.
use fresko_universe.Approvals.{decide}
use fresko_universe.Approvals.Steps.{decide-Relates}
use fresko_universe.ContainerDoc.{save_container}
use fresko_universe.Data.{Revision, no_flags, Session}
use fresko_universe.Db.{revision_key, Db, ok}
use fresko_universe.Db.Frame.{ended}
use fresko_universe.DealDoc.{save_deal}
use fresko_universe.Deals.{
  accept_counter, cancel_deal, advance_to_legacy_outward_pending, record_dispatch, apply_rate_rules,
}
use fresko_universe.Deals.Steps.{
  apply_rate_rules-Relates, accept_counter-Relates, cancel_deal-Relates,
  advance_to_legacy_outward_pending-Relates, record_dispatch-Relates,
}
use fresko_universe.Lifecycle.{
  Step, Reaches, by_inserting, by_rate_rules, by_accepting, by_cancelling, by_advancing,
  by_dispatching, by_deciding, by_requesting, by_minting, by_revising, by_container,
  by_revision_desk, by_desk, here, next,
}
use fresko_universe.Lifecycle.Inserting.{insert_deal-KeepsApplied}
use fresko_universe.Prelude.{ℕ, ◌≡◌, sym, ◌∙◌, false, Option, some, Ref, find}
use fresko_universe.Revisions.{save_revision, apply_revision, Texts}
use fresko_universe.Revisions.Fresh.{
  request_revision-KeepsApplied, create_revision_approval-KeepsApplied,
}
use fresko_universe.Revisions.Kept.{
  RevisionsBelow, KeepsApplied-refl, KeepsApplied-trans, save_deal-KeepsApplied,
  save_revision-KeepsApplied, resolve_buyer_exceptions-KeepsApplied, KeepsApplied-Closed,
  save_container-KeepsApplied, KeepsApplied,
}
use fresko_universe.Revisions.Once.{apply_revision-Applied}
use fresko_universe.Revisions.Steps.{apply_revision-Relates}

Step-KeepsApplied : {t : Texts} {db db' : Db} → Step t db db' → KeepsApplied db db'
Step-KeepsApplied {t} {db} {db'} (by_inserting fingerprint d d' new e) =
    insert_deal-KeepsApplied fingerprint d d' db db' e
Step-KeepsApplied {t} {db} {db'} (by_rate_rules s before n d e) =
    ended (apply_rate_rules s before n) db db' d
      (apply_rate_rules-Relates KeepsApplied-Closed s before n) e
Step-KeepsApplied {t} {db} {db'} (by_accepting s before n d e) =
    ended (accept_counter s before n) db db' d
      (accept_counter-Relates KeepsApplied-Closed s before n) e
Step-KeepsApplied {t} {db} {db'} (by_cancelling s n reason d e) =
    ended (cancel_deal s n reason) db db' d (cancel_deal-Relates KeepsApplied-Closed s n reason) e
Step-KeepsApplied {t} {db} {db'} (by_advancing s before n d e) =
    ended (advance_to_legacy_outward_pending s before n) db db' d
      (advance_to_legacy_outward_pending-Relates KeepsApplied-Closed s before n) e
Step-KeepsApplied {t} {db} {db'} (by_dispatching s before n qty d e) =
    ended (record_dispatch s before n qty) db db' d
      (record_dispatch-Relates KeepsApplied-Closed s before n qty) e
Step-KeepsApplied {t} {db} {db'} (by_deciding s before n decision rate reason oversell d e) =
    ended (decide s before n decision rate reason oversell) db db' d
      (decide-Relates KeepsApplied-Closed s before n decision rate reason oversell) e
Step-KeepsApplied {t} {db} {db'} (by_requesting s n field new_value reason evidence r e) =
    request_revision-KeepsApplied t s n field new_value reason evidence r db db' e
Step-KeepsApplied {t} {db} {db'} (by_minting s n decision rate reason a e) =
    create_revision_approval-KeepsApplied s n decision rate reason a db db' e
Step-KeepsApplied {t} {db} {db'} (by_revising s n passed r e) =
    ended (apply_revision t s n passed) db db' r
      (apply_revision-Relates KeepsApplied-Closed save_revision-KeepsApplied
        resolve_buyer_exceptions-KeepsApplied t s n passed)
      e
Step-KeepsApplied {t} {db} {db'} (by_container companies reason c e) =
    ended (save_container companies reason c) db db' tt
      (save_container-KeepsApplied companies reason c) e
Step-KeepsApplied {t} {db} {db'} (by_revision_desk r e) =
    ended (save_revision false r) db db' tt (save_revision-KeepsApplied false r) e
Step-KeepsApplied {t} {db} {db'} (by_desk old d d' f e) =
    ended (save_deal no_flags d) db db' d' (save_deal-KeepsApplied no_flags d) e

Reaches-KeepsApplied : {t : Texts} {db db' : Db} → Reaches t db db' → KeepsApplied db db'
Reaches-KeepsApplied {t} {db} here = KeepsApplied-refl db
Reaches-KeepsApplied {t} {db} (next {x} {y} r st) =
    KeepsApplied-trans db x y (Reaches-KeepsApplied r) (Step-KeepsApplied st)

-- Once a Revision is applied (names of Revisions being below the next name before it was), it is
-- stored with every field as it was applied after any run of requests that succeed, each of which
-- is one that Lifecycle.Step lists (a method of Deals, Approvals or Revisions, an insert or a
-- save of a Deal, or a save of a Container or a Revision; never a deletion).
pub applied_kept :
    {t : Texts} {db' db'' : Db} (db : Db) (s : Session) (n : ℕ) (passed : Ref) (r : Revision)
    → RevisionsBelow db
    → apply_revision t s n passed db ≡ ok (r, db')
    → Reaches t db' db''
    → find revision_key n db''.revisions ≡ some r
applied_kept {t} {db'} {db''} db s n passed r below h run =
    let a = apply_revision-Applied t s n passed r db db' h in
    let first : Step t db db' = by_revising s n passed r h in
    (Reaches-KeepsApplied run).kept ((Step-KeepsApplied first).below below) n r a.stored a.applied

-- Once a Revision is applied, no later request of a run applies it again (names of Revisions
-- being below the next name before it was).
pub applied_once :
    {t : Texts} {db' db'' db3 : Db} (db : Db) (s s' : Session) (n : ℕ) (passed passed' : Ref)
    (r r' : Revision)
    → RevisionsBelow db
    → apply_revision t s n passed db ≡ ok (r, db')
    → Reaches t db' db''
    → ¬ (apply_revision t s' n passed' db'' ≡ ok (r', db3))
applied_once {t} {db'} {db''} {db3} db s s' n passed passed' r r' below h run k =
    let a = apply_revision-Applied t s n passed r db db' h in
    let kept = applied_kept db s n passed r below h run in
    let b = apply_revision-Applied t s' n passed' r' db'' db3 k in
    let same : ◌≡◌ {A = Option Revision} (some r) (some b.old) = sym kept ∙ b.found in
    let p = a.applied in let q = b.was_pending in absurd (cc)
