-- ===== src/Ledger/Quiet.antt =====
-- The requests on Deals, Containers, Approvals and Revisions write no Outward and no assertion.
use fresko_universe.Approvals.{decide}
use fresko_universe.Approvals.Steps.{decide-Relates}
use fresko_universe.ContainerDoc.{save_container}
use fresko_universe.Data.{Deal, Container, ExceptionDoc, Approval, Revision, no_flags, Flags}
use fresko_universe.Db.{
  ◌>>◌, pure, write_deal, write_exception, write_approval, write_revision, write_container, fresh,
  Db, ok,
}
use fresko_universe.Db.Frame.{ended}
use fresko_universe.Db.Relates.{Relates-bind, Relates-pure, by_runs, Relates}
use fresko_universe.DealDoc.{save_deal, insert_deal}
use fresko_universe.DealDoc.Closed.{Closed, closed_rules}
use fresko_universe.DealDoc.Inserted.{insert_deal-Inserted}
use fresko_universe.DealDoc.Passed.{save_deal-ok}
use fresko_universe.Deals.{
  accept_counter, cancel_deal, advance_to_legacy_outward_pending, record_dispatch, apply_rate_rules,
}
use fresko_universe.Deals.Steps.{
  apply_rate_rules-Relates, accept_counter-Relates, cancel_deal-Relates,
  advance_to_legacy_outward_pending-Relates, record_dispatch-Relates,
}
use fresko_universe.Exceptions.{resolve_buyer_exceptions}
use fresko_universe.Lifecycle.{
  Step, by_inserting, by_rate_rules, by_accepting, by_cancelling, by_advancing, by_dispatching,
  by_deciding, by_requesting, by_minting, by_revising, by_container, by_revision_desk, by_desk,
}
use fresko_universe.Prelude.{ℕ, ◌≡◌, refl, sym, ◌∙◌, subst, Bool, false, Ref}
use fresko_universe.Revisions.{
  save_revision, request_revision, create_revision_approval, apply_revision, Texts,
}
use fresko_universe.Revisions.Steps.{
  apply_revision-Relates, request_revision-Relates, create_revision_approval-Relates,
  save_revision-Relates,
}

-- The Outwards and the assertions, of quantities and of rates, are as they were.
pub record Quiet (db db' : Db) : Type 0 where
  pub outwards : db'.outwards ≡ db.outwards
  pub assertions : db'.assertions ≡ db.assertions
  pub field_assertions : db'.field_assertions ≡ db.field_assertions

Quiet-refl : (db : Db) → Quiet db db
Quiet-refl db = record { outwards = refl; assertions = refl; field_assertions = refl }

Quiet-trans : (x y z : Db) → Quiet x y → Quiet y z → Quiet x z
Quiet-trans x y z h k = record {
  outwards = k.outwards ∙ h.outwards;
  assertions = k.assertions ∙ h.assertions;
  field_assertions = k.field_assertions ∙ h.field_assertions;
}

write_deal-Quiet : (d : Deal) → Relates Quiet (write_deal d)
write_deal-Quiet d = record {
  at = λ db. record { outwards = refl; assertions = refl; field_assertions = refl };
}

write_exception-Quiet : (x : ExceptionDoc) → Relates Quiet (write_exception x)
write_exception-Quiet x = record {
  at = λ db. record { outwards = refl; assertions = refl; field_assertions = refl };
}

write_approval-Quiet : (a : Approval) → Relates Quiet (write_approval a)
write_approval-Quiet a = record {
  at = λ db. record { outwards = refl; assertions = refl; field_assertions = refl };
}

write_revision-Quiet : (r : Revision) → Relates Quiet (write_revision r)
write_revision-Quiet r = record {
  at = λ db. record { outwards = refl; assertions = refl; field_assertions = refl };
}

write_container-Quiet : (c : Container) → Relates Quiet (write_container c)
write_container-Quiet c = record {
  at = λ db. record { outwards = refl; assertions = refl; field_assertions = refl };
}

fresh-Quiet : Relates Quiet fresh
fresh-Quiet = record {
  at = λ db. record { outwards = refl; assertions = refl; field_assertions = refl };
}

save_deal-Quiet : (flags : Flags) (d : Deal) → Relates Quiet (save_deal flags d)
save_deal-Quiet flags d = by_runs (save_deal flags d) λ db db' d' h.
    let (_, left) = save_deal-ok flags d d' db db' h in
    subst (Quiet db) left (record { outwards = refl; assertions = refl; field_assertions = refl })

Quiet-Closed : Closed Quiet
Quiet-Closed = record {
  same = Quiet-refl;
  joined = Quiet-trans;
  deal_saved = save_deal-Quiet;
  deal_rewritten = λ flags d f _.
      Relates-bind (save_deal flags d) (λ saved. write_deal (f saved) >> pure (f saved)) Quiet-trans
        (save_deal-Quiet flags d)
        λ saved.
          Relates-bind (write_deal (f saved)) (λ _. pure (f saved)) Quiet-trans
            (write_deal-Quiet (f saved)) λ _. Relates-pure (f saved) Quiet-refl;
  exception_written = write_exception-Quiet;
  approval_written = write_approval-Quiet;
  name_given = fresh-Quiet;
}

insert_deal-Quiet :
    (fingerprint : Deal → ℕ) (d d' : Deal) (db db' : Db)
    → insert_deal fingerprint d db ≡ ok (d', db')
    → Quiet db db'
insert_deal-Quiet fingerprint d d' db db' h =
    let i = insert_deal-Inserted fingerprint d d' db db' h in
    subst (Quiet db) (sym i.left)
      (record { outwards = refl; assertions = refl; field_assertions = refl })

save_container-Quiet :
    (companies : Ref → Bool) (reason : Bool) (c : Container)
    → Relates Quiet (save_container companies reason c)
unfolding save_container
save_container-Quiet companies reason c = search (closed_rules, write_container-Quiet, Quiet-Closed)

resolve_buyer_exceptions-Quiet : (n : ℕ) → Relates Quiet (resolve_buyer_exceptions n)
unfolding resolve_buyer_exceptions
resolve_buyer_exceptions-Quiet n = record {
  at = λ db. record { outwards = refl; assertions = refl; field_assertions = refl };
}

pub Step-Quiet : {t : Texts} {db db' : Db} → Step t db db' → Quiet db db'
Step-Quiet {t} {db} {db'} (by_inserting fingerprint d d' new e) =
    insert_deal-Quiet fingerprint d d' db db' e
Step-Quiet {t} {db} {db'} (by_rate_rules s before n d e) =
    ended (apply_rate_rules s before n) db db' d (apply_rate_rules-Relates Quiet-Closed s before n)
      e
Step-Quiet {t} {db} {db'} (by_accepting s before n d e) =
    ended (accept_counter s before n) db db' d (accept_counter-Relates Quiet-Closed s before n) e
Step-Quiet {t} {db} {db'} (by_cancelling s n reason d e) =
    ended (cancel_deal s n reason) db db' d (cancel_deal-Relates Quiet-Closed s n reason) e
Step-Quiet {t} {db} {db'} (by_advancing s before n d e) =
    ended (advance_to_legacy_outward_pending s before n) db db' d
      (advance_to_legacy_outward_pending-Relates Quiet-Closed s before n) e
Step-Quiet {t} {db} {db'} (by_dispatching s before n qty d e) =
    ended (record_dispatch s before n qty) db db' d
      (record_dispatch-Relates Quiet-Closed s before n qty) e
Step-Quiet {t} {db} {db'} (by_deciding s before n decision rate reason oversell d e) =
    ended (decide s before n decision rate reason oversell) db db' d
      (decide-Relates Quiet-Closed s before n decision rate reason oversell) e
Step-Quiet {t} {db} {db'} (by_requesting s n field new_value reason evidence r e) =
    ended (request_revision t s n field new_value reason evidence) db db' r
      (request_revision-Relates Quiet-Closed write_revision-Quiet t s n field new_value reason
        evidence)
      e
Step-Quiet {t} {db} {db'} (by_minting s n decision rate reason a e) =
    ended (create_revision_approval s n decision rate reason) db db' a
      (create_revision_approval-Relates Quiet-Closed write_revision-Quiet s n decision rate reason)
      e
Step-Quiet {t} {db} {db'} (by_revising s n passed r e) =
    ended (apply_revision t s n passed) db db' r
      (apply_revision-Relates Quiet-Closed (save_revision-Relates Quiet-Closed write_revision-Quiet)
        resolve_buyer_exceptions-Quiet t s n passed)
      e
Step-Quiet {t} {db} {db'} (by_container companies reason c e) =
    ended (save_container companies reason c) db db' tt (save_container-Quiet companies reason c) e
Step-Quiet {t} {db} {db'} (by_revision_desk r e) =
    ended (save_revision false r) db db' tt
      (save_revision-Relates Quiet-Closed write_revision-Quiet false r) e
Step-Quiet {t} {db} {db'} (by_desk old d d' f e) =
    ended (save_deal no_flags d) db db' d' (save_deal-Quiet no_flags d) e
