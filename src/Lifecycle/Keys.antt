-- ===== src/Lifecycle/Keys.antt =====
-- Over a whole run, no two Deals come to share an idempotency key.
use fresko_universe.Approvals.{decide}
use fresko_universe.Approvals.Steps.{decide-Relates}
use fresko_universe.ContainerDoc.{save_container}
use fresko_universe.Data.{no_flags}
use fresko_universe.Db.{Db}
use fresko_universe.Db.Frame.{ended}
use fresko_universe.DealDoc.{save_deal}
use fresko_universe.DealDoc.KeepsKeys.{
  KeepsKeys-refl, KeepsKeys-trans, write_revision-KeepsKeys, save_deal-KeepsKeys, KeepsKeys-Closed,
  insert_deal-KeepsKeys, save_container-KeepsKeys, resolve_buyer_exceptions-KeepsKeys, KeepsKeys,
}
use fresko_universe.Deals.{
  accept_counter, cancel_deal, advance_to_legacy_outward_pending, record_dispatch, apply_rate_rules,
}
use fresko_universe.Deals.Steps.{
  apply_rate_rules-Relates, accept_counter-Relates, cancel_deal-Relates,
  advance_to_legacy_outward_pending-Relates, record_dispatch-Relates,
}
use fresko_universe.Lifecycle.{
  Step, Reaches, by_inserting, by_rate_rules, by_accepting, by_cancelling, by_advancing,
  by_dispatching, by_deciding, by_requesting, by_minting, by_revising, by_container,
  by_revision_desk, by_desk, here, next,
}
use fresko_universe.Prelude.{false}
use fresko_universe.Revisions.{
  save_revision, request_revision, create_revision_approval, apply_revision, Texts,
}
use fresko_universe.Revisions.Steps.{
  apply_revision-Relates, request_revision-Relates, create_revision_approval-Relates,
  save_revision-Relates,
}

Step-KeepsKeys : {t : Texts} {db db' : Db} → Step t db db' → KeepsKeys db db'
Step-KeepsKeys {t} {db} {db'} (by_inserting fingerprint d d' new e) =
    insert_deal-KeepsKeys fingerprint d d' db db' e
Step-KeepsKeys {t} {db} {db'} (by_rate_rules s before n d e) =
    ended (apply_rate_rules s before n) db db' d
      (apply_rate_rules-Relates KeepsKeys-Closed s before n) e
Step-KeepsKeys {t} {db} {db'} (by_accepting s before n d e) =
    ended (accept_counter s before n) db db' d (accept_counter-Relates KeepsKeys-Closed s before n)
      e
Step-KeepsKeys {t} {db} {db'} (by_cancelling s n reason d e) =
    ended (cancel_deal s n reason) db db' d (cancel_deal-Relates KeepsKeys-Closed s n reason) e
Step-KeepsKeys {t} {db} {db'} (by_advancing s before n d e) =
    ended (advance_to_legacy_outward_pending s before n) db db' d
      (advance_to_legacy_outward_pending-Relates KeepsKeys-Closed s before n) e
Step-KeepsKeys {t} {db} {db'} (by_dispatching s before n qty d e) =
    ended (record_dispatch s before n qty) db db' d
      (record_dispatch-Relates KeepsKeys-Closed s before n qty) e
Step-KeepsKeys {t} {db} {db'} (by_deciding s before n decision rate reason oversell d e) =
    ended (decide s before n decision rate reason oversell) db db' d
      (decide-Relates KeepsKeys-Closed s before n decision rate reason oversell) e
Step-KeepsKeys {t} {db} {db'} (by_requesting s n field new_value reason evidence r e) =
    ended (request_revision t s n field new_value reason evidence) db db' r
      (request_revision-Relates KeepsKeys-Closed write_revision-KeepsKeys t s n field new_value
        reason evidence)
      e
Step-KeepsKeys {t} {db} {db'} (by_minting s n decision rate reason a e) =
    ended (create_revision_approval s n decision rate reason) db db' a
      (create_revision_approval-Relates KeepsKeys-Closed write_revision-KeepsKeys s n decision rate
        reason)
      e
Step-KeepsKeys {t} {db} {db'} (by_revising s n passed r e) =
    ended (apply_revision t s n passed) db db' r
      (apply_revision-Relates KeepsKeys-Closed
        (save_revision-Relates KeepsKeys-Closed write_revision-KeepsKeys)
        resolve_buyer_exceptions-KeepsKeys t s n passed)
      e
Step-KeepsKeys {t} {db} {db'} (by_container companies reason c e) =
    ended (save_container companies reason c) db db' tt
      (save_container-KeepsKeys companies reason c) e
Step-KeepsKeys {t} {db} {db'} (by_revision_desk r e) =
    ended (save_revision false r) db db' tt
      (save_revision-Relates KeepsKeys-Closed write_revision-KeepsKeys false r) e
Step-KeepsKeys {t} {db} {db'} (by_desk old d d' f e) =
    ended (save_deal no_flags d) db db' d' (save_deal-KeepsKeys no_flags d) e

-- After any run of successful requests that Lifecycle.Step lists, no two Deals share a message id
-- if no two did before, and no two share a fingerprint if no two did before.
pub Reaches-KeepsKeys : {t : Texts} {db db' : Db} → Reaches t db db' → KeepsKeys db db'
Reaches-KeepsKeys {t} {db} here = KeepsKeys-refl db
Reaches-KeepsKeys {t} {db} (next {x} {y} r st) =
    KeepsKeys-trans db x y (Reaches-KeepsKeys r) (Step-KeepsKeys st)
