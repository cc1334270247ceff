-- ===== src/Lifecycle/Final.antt =====
-- Over a whole run, statuses follow DEAL_TRANSITIONS, and the final ones are kept.
use fresko_universe.Approvals.{decide}
use fresko_universe.Approvals.Steps.{decide-Relates}
use fresko_universe.ContainerDoc.{save_container}
use fresko_universe.Data.{Deal, Container, no_flags, DealStatus}
use fresko_universe.Db.{M, deal_key, Db, ok}
use fresko_universe.Db.Relates.{Ends, Relates}
use fresko_universe.DealDoc.{save_deal}
use fresko_universe.DealDoc.Closed.{Evolves-Closed}
use fresko_universe.DealDoc.Evolves.{
  DealMoves, Evolves-refl, Evolves-trans, write_revision-Evolves, write_container-Evolves,
  save_deal-Evolves, Evolves, evolve_rules,
}
use fresko_universe.Deals.{
  accept_counter, cancel_deal, advance_to_legacy_outward_pending, record_dispatch, apply_rate_rules,
}
use fresko_universe.Deals.Steps.{
  apply_rate_rules-Relates, accept_counter-Relates, cancel_deal-Relates,
  advance_to_legacy_outward_pending-Relates, record_dispatch-Relates,
}
use fresko_universe.Lifecycle.{
  Step, Reaches, by_inserting, by_rate_rules, by_accepting, by_cancelling, by_advancing,
  by_dispatching, by_deciding, by_requesting, by_minting, by_revising, by_container,
  by_revision_desk, by_desk, here, next,
}
use fresko_universe.Lifecycle.Inserting.{insert_deal-Evolves}
use fresko_universe.Policy.{may_follow}
use fresko_universe.Policy.StatusPath.{StatusPath, stay, move}
use fresko_universe.Prelude.{ℕ, ◌≡◌, refl, subst, Bool, true, false, Option, none, some, Ref, find}
use fresko_universe.Revisions.{
  save_revision, request_revision, create_revision_approval, apply_revision, Texts,
}
use fresko_universe.Revisions.Steps.{
  apply_revision-Relates, request_revision-Relates, create_revision_approval-Relates,
  save_revision-Relates, resolve_buyer_exceptions-Evolves,
}

use_end :
    {A : Type 0} (m : M A) (db db' : Db) (a : A)
    → Relates Evolves m
    → m db ≡ ok (a, db')
    → Evolves db db'
use_end m db db' a h e = subst (Ends (Evolves db)) e (h.at db)

save_container-Evolves :
    (companies : Ref → Bool) (reason : Bool) (c : Container)
    → Relates Evolves (save_container companies reason c)
unfolding save_container
save_container-Evolves companies reason c = search (evolve_rules, write_container-Evolves)

Step-Evolves : {t : Texts} {db db' : Db} → Step t db db' → Evolves db db'
Step-Evolves {t} {db} {db'} (by_inserting fingerprint d d' new e) =
    insert_deal-Evolves fingerprint d d' db db' new e
Step-Evolves {t} {db} {db'} (by_rate_rules s before n d e) =
    use_end (apply_rate_rules s before n) db db' d
      (apply_rate_rules-Relates Evolves-Closed s before n) e
Step-Evolves {t} {db} {db'} (by_accepting s before n d e) =
    use_end (accept_counter s before n) db db' d (accept_counter-Relates Evolves-Closed s before n)
      e
Step-Evolves {t} {db} {db'} (by_cancelling s n reason d e) =
    use_end (cancel_deal s n reason) db db' d (cancel_deal-Relates Evolves-Closed s n reason) e
Step-Evolves {t} {db} {db'} (by_advancing s before n d e) =
    use_end (advance_to_legacy_outward_pending s before n) db db' d
      (advance_to_legacy_outward_pending-Relates Evolves-Closed s before n) e
Step-Evolves {t} {db} {db'} (by_dispatching s before n qty d e) =
    use_end (record_dispatch s before n qty) db db' d
      (record_dispatch-Relates Evolves-Closed s before n qty) e
Step-Evolves {t} {db} {db'} (by_deciding s before n decision rate reason oversell d e) =
    use_end (decide s before n decision rate reason oversell) db db' d
      (decide-Relates Evolves-Closed s before n decision rate reason oversell) e
Step-Evolves {t} {db} {db'} (by_requesting s n field new_value reason evidence r e) =
    use_end (request_revision t s n field new_value reason evidence) db db' r
      (request_revision-Relates Evolves-Closed write_revision-Evolves t s n field new_value reason
        evidence)
      e
Step-Evolves {t} {db} {db'} (by_minting s n decision rate reason a e) =
    use_end (create_revision_approval s n decision rate reason) db db' a
      (create_revision_approval-Relates Evolves-Closed write_revision-Evolves s n decision rate
        reason)
      e
Step-Evolves {t} {db} {db'} (by_revising s n passed r e) =
    use_end (apply_revision t s n passed) db db' r
      (apply_revision-Relates Evolves-Closed
        (save_revision-Relates Evolves-Closed write_revision-Evolves)
        resolve_buyer_exceptions-Evolves t s n passed)
      e
Step-Evolves {t} {db} {db'} (by_container companies reason c e) =
    use_end (save_container companies reason c) db db' tt
      (save_container-Evolves companies reason c) e
Step-Evolves {t} {db} {db'} (by_revision_desk r e) =
    use_end (save_revision false r) db db' tt
      (save_revision-Relates Evolves-Closed write_revision-Evolves false r) e
Step-Evolves {t} {db} {db'} (by_desk old d d' f e) =
    use_end (save_deal no_flags d) db db' d' (save_deal-Evolves no_flags d) e

-- After any run of requests that succeed, each of which is one that Lifecycle.Step lists (a
-- method of Deals, Approvals or Revisions, an insert or a save of a Deal, or a save of a
-- Container or a Revision; never a deletion), every Deal that was there is still there; its
-- status has moved, if at all, by transitions of DEAL_TRANSITIONS one after the other; its buyer
-- alias is what it was; its dispatched quantity is between zero and its quantity if it was so
-- before; and the Deals' names are distinct if they were.
pub Reaches-Evolves : {t : Texts} {db db' : Db} → Reaches t db db' → Evolves db db'
Reaches-Evolves {t} {db} here = Evolves-refl db
Reaches-Evolves {t} {db} (next {x} {y} r st) =
    Evolves-trans db x y (Reaches-Evolves r) (Step-Evolves st)

-- The statuses with no transition out of them.
abbrev pub IsFinal : DealStatus → Type 0
IsFinal DealStatus.reconciled = Unit {0}
IsFinal DealStatus.cancelled = Unit {0}
IsFinal _ = ⊥

final_stays : (s t : DealStatus) → IsFinal s → may_follow s t ≡ false
unfolding may_follow
final_stays DealStatus.reconciled t h = refl
final_stays DealStatus.cancelled t h = refl
final_stays _ t h = absurd h

path_of_final : {s t : DealStatus} → IsFinal s → StatusPath s t → t ≡ s
path_of_final h stay = refl
path_of_final {s} h (move {t} {u} p m) =
    let e : t ≡ s = path_of_final h p in
    let f = final_stays s u h in let g = subst (λ k. may_follow k u ≡ true) e m in absurd (cc)

path_of_moves : {a b : Deal} → DealMoves (some a) (some b) → StatusPath a.status b.status
path_of_moves m = m.path

-- A Deal that is Reconciled or Cancelled is stored and is so after any run of requests that
-- succeed, each of which is one that Lifecycle.Step lists (a method of Deals, Approvals or
-- Revisions, an insert or a save of a Deal, or a save of a Container or a Revision; never a
-- deletion).
pub final_kept :
    {t : Texts} {db db' : Db} (r : Reaches t db db') (n : ℕ) (d : Deal)
    → find deal_key n db.deals ≡ some d
    → IsFinal d.status
    → (d' : Deal) × (find deal_key n db'.deals ≡ some d') × (d'.status ≡ d.status)
final_kept {t} {db} {db'} r n d found final =
    at (find deal_key n db'.deals) refl
      (subst (λ o. DealMoves o (find deal_key n db'.deals)) found ((Reaches-Evolves r).moves n))
  where
    at :
        (o : Option Deal)
        → find deal_key n db'.deals ≡ o
        → DealMoves (some d) (find deal_key n db'.deals)
        → (d' : Deal) × (find deal_key n db'.deals ≡ some d') × (d'.status ≡ d.status)
    at none e m = absurd (rw e at m)
    at (some d') e m = (d', e, path_of_final final (path_of_moves (rw e at m)))
