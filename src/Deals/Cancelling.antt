-- ===== src/Deals/Cancelling.antt =====
-- A Deal that is cancelled once more.
use fresko_universe.Access.{is_deal_owner_or_salesperson, assert_can_work_on_deal}
use fresko_universe.Data.{Deal, Session, is_status, DealStatus}
use fresko_universe.Db.{
  pass, throw_if, M, ◌>>=◌, ◌>>◌, pure, reads, check, deal_key, get_deal, reads-then, or_throw-ok,
  after_query, after_check, Db, ok, Error,
}
use fresko_universe.DealDoc.{save_deal}
use fresko_universe.DealDoc.Evolves.{find-save_deal}
use fresko_universe.DealDoc.Passed.{Validated-SameCore, save_deal-ok}
use fresko_universe.Deals.{set_status, cancel_with, cancel_deal}
use fresko_universe.Policy.StatusPath.{is_status-eq}
use fresko_universe.Prelude.{
  ℕ, ◌≡◌, refl, ◌∙◌, subst, inl, inr, true, not, some, if◌then◌else◌, Ref, is_set, Bool-cases, find,
  find-key,
}

gate-kept :
    (s : Session) (a b : Deal)
    → b.owner ≡ a.owner
    → b.salesperson_user ≡ a.salesperson_user
    → assert_can_work_on_deal s a ≡ pass
    → assert_can_work_on_deal s b ≡ pass
unfolding assert_can_work_on_deal is_deal_owner_or_salesperson
gate-kept s a b o p h = rw (o, p) h

cancelled_again :
    (s : Session) (n : ℕ) (reason : Ref) (d : Deal) (db : Db)
    → is_set reason ≡ true
    → find deal_key n db.deals ≡ some d
    → assert_can_work_on_deal s d ≡ pass
    → d.status ≡ DealStatus.cancelled
    → cancel_deal s n reason db ≡ ok (d, db)
unfolding cancel_deal
cancelled_again s n reason d db r f g c =
    reads-then (λ _. throw_if (not (is_set reason)) Error.cancel_reason_required) _ db tt
      (rw r refl)
    ∙ reads-then (get_deal n) _ db d (rw f refl)
    ∙ reads-then (λ _. assert_can_work_on_deal s d) _ db tt g
    ∙ rw c refl

-- What cancel_deal does once it has read the Deal.
abbrev cancel_found : Session → Ref → Deal → M Deal
cancel_found s reason old =
    check (assert_can_work_on_deal s old)
    >> (if is_status old.status DealStatus.cancelled
        then pure old
        else save_deal set_status (cancel_with reason old))

cancelled_now :
    (s : Session) (n : ℕ) (reason again : Ref) (old d : Deal) (db db' : Db)
    → is_set again ≡ true
    → find deal_key n db.deals ≡ some old
    → assert_can_work_on_deal s old ≡ pass
    → save_deal set_status (cancel_with reason old) db ≡ ok (d, db')
    → cancel_deal s n again db' ≡ ok (d, db')
unfolding cancel_with
cancelled_now s n reason again old d db db' r found gate h =
    let core = Validated-SameCore (save_deal-ok set_status (cancel_with reason old) d db db' h).0 in
    cancelled_again s n again d db' r
      (subst (λ m. find deal_key m db'.deals ≡ some d)
        (core.name ∙ find-key deal_key n db.deals old found)
        (find-save_deal set_status (cancel_with reason old) d db db' h))
      (gate-kept s old d core.owner core.salesperson_user gate) core.status

-- Where a Deal is cancelled, the same user may cancel it again, with any reason: it answers the
-- same Deal and writes nothing.
pub cancel_deal-cancel_deal :
    (s : Session) (n : ℕ) (reason again : Ref) (d : Deal) (db db' : Db)
    → is_set again ≡ true
    → cancel_deal s n reason db ≡ ok (d, db')
    → cancel_deal s n again db' ≡ ok (d, db')
unfolding cancel_deal cancel_with
cancel_deal-cancel_deal s n reason again d db db' r h =
    after_check (λ _. throw_if (not (is_set reason)) Error.cancel_reason_required)
      (λ _. reads (get_deal n) >>= cancel_found s reason) db db' d h
      λ _ h1. after_query (get_deal n) (cancel_found s reason) db db' d h1 λ old found h2.
        after_check (λ _. assert_can_work_on_deal s old)
          (λ _.
            if is_status old.status DealStatus.cancelled
            then pure old
            else save_deal set_status (cancel_with reason old))
          db db' d h2
          λ gate h3.
            let stored = or_throw-ok (find deal_key n db.deals) Error.not_found old found in
            elim (Bool-cases (is_status old.status DealStatus.cancelled)) [
              | inl e ↦
                  let k = (rw e at h3) in
                  let same : old ≡ d = cc in
                  let left : db ≡ db' = cc in
                  subst (λ (x : Db). cancel_deal s n again x ≡ ok (d, x)) left
                    (subst (λ (x : Deal). cancel_deal s n again db ≡ ok (x, db)) same
                      (cancelled_again s n again old db r stored gate (is_status-eq _ _ e)))
              | inr e ↦ cancelled_now s n reason again old d db db' r stored gate (rw e at h3)
            ]
