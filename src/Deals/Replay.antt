-- ===== src/Deals/Replay.antt =====
-- A dispatch that is recorded once more.
use fresko_universe.Access.{assert_can_record_dispatch}
use fresko_universe.Data.{Deal, Session, is_status, DealStatus}
use fresko_universe.Db.{
  Check, pass, throw_if, ◌>>◌, pure, reads, deal_key, get_deal, bind-then, reads-then, check-ok,
  after_bind, after_query, after_check, Db, ok, Error,
}
use fresko_universe.DealDoc.{save_deal}
use fresko_universe.DealDoc.Evolves.{find-save_deal}
use fresko_universe.DealDoc.Passed.{Validated-SameCore, save_deal-ok}
use fresko_universe.Deals.{
  locked_deal, dispatch_checks, set_dispatched, dispatch_to, record_dispatch_locked,
  record_dispatch,
}
use fresko_universe.Deals.Dispatch.{dispatch_checks-Recorded, record_dispatch-Dispatched}
use fresko_universe.Deals.Locked.{locked_deal-ok}
use fresko_universe.Prelude.{
  ℕ, ◌≡◌, refl, sym, ◌∙◌, subst, inl, inr, true, false, ◌&&◌, ◌||◌, not, some, arith, ◌==◌, ==-refl,
  Bool-cases, find, find-key,
}
use fresko_universe.Prelude.Int.{◌≤ℤ◌, ltb_ℤ, eqb_ℤ, eqb_ℤ-refl, ltb_ℤ-not, ℤ, pos}

-- The statuses in which a recorded quantity may be recorded again.
abbrev TakesReplay : DealStatus → Type 0
TakesReplay s =
    (is_status s DealStatus.outward_pending
      || is_status s DealStatus.partially_dispatched
      || is_status s DealStatus.dispatched)
    ≡ true

locked_again :
    (db : Db) (n : ℕ) (gate : Deal → Check) (d : Deal)
    → find deal_key n db.deals ≡ some d
    → gate d ≡ pass
    → locked_deal db n gate db ≡ ok (d, db)
unfolding locked_deal
locked_again db n gate d f g =
    reads-then (λ _. get_deal n db) _ db d (rw f refl)
    ∙ reads-then (λ _. gate d) _ db tt g
    ∙ reads-then (get_deal n) _ db d (rw f refl)
    ∙ reads-then (λ _. throw_if (not (d.container == d.container)) Error.container_changed) _ db tt
        (rw ==-refl refl)

replay_of_locked :
    (d : Deal) (db : Db)
    → TakesReplay d.status
    → record_dispatch_locked d d.dispatched_qty db ≡ ok (d, db)
unfolding record_dispatch_locked
replay_of_locked d db t = elim (Bool-cases (is_status d.status DealStatus.dispatched)) [
  | inl e ↦ rw (e, record_dispatch_locked, eqb_ℤ-refl d.dispatched_qty) refl
  | inr e ↦ rw (e, record_dispatch_locked, eqb_ℤ-refl d.dispatched_qty, waits e t) refl
]
  where
    waits :
        is_status d.status DealStatus.dispatched ≡ false
        → TakesReplay d.status
        → (is_status d.status DealStatus.outward_pending
            || is_status d.status DealStatus.partially_dispatched)
          ≡ true
    waits e t = ground arith

replayed_at :
    (s : Session) (n : ℕ) (qty : ℤ) (d : Deal) (db : Db)
    → find deal_key n db.deals ≡ some d
    → assert_can_record_dispatch s ≡ pass
    → pos 0 ≤ℤ qty
    → d.dispatched_qty ≡ qty
    → TakesReplay d.status
    → record_dispatch s db n qty db ≡ ok (d, db)
unfolding record_dispatch
replayed_at s n qty d db f g p held t =
    bind-then (locked_deal db n (λ _. assert_can_record_dispatch s)) _ db db d
      (locked_again db n (λ _. assert_can_record_dispatch s) d f g)
    ∙ reads-then (λ _. throw_if (ltb_ℤ qty (pos 0)) Error.negative_dispatch) _ db tt
        (rw (ltb_ℤ-not qty (pos 0) p) refl)
    ∙ subst (λ q. record_dispatch_locked d q db ≡ ok (d, db)) held (replay_of_locked d db t)

gate_passed :
    (s : Session) (before : Db) (n : ℕ) (qty : ℤ) (d : Deal) (db db' : Db)
    → record_dispatch s before n qty db ≡ ok (d, db')
    → assert_can_record_dispatch s ≡ pass
unfolding record_dispatch locked_deal
gate_passed s before n qty d db db' h =
    after_bind (locked_deal before n (λ _. assert_can_record_dispatch s)) _ db db' d h
      λ old m0 e0 h0.
        after_query (λ _. get_deal n before) _ db m0 old e0
          λ probe f h1. after_check (λ _. assert_can_record_dispatch s) _ db m0 old h1 λ g h2. g

new_status :
    (qty : ℤ) (old : Deal)
    → (is_status old.status DealStatus.outward_pending
        || is_status old.status DealStatus.partially_dispatched)
      ≡ true
    → TakesReplay (dispatch_to qty old).status
unfolding dispatch_to
new_status qty old h = ground arith

-- What is left in the table may be recorded again.
abbrev Left : ℕ → Deal → Db → Type 0
Left n d db = (find deal_key n db.deals ≡ some d) × TakesReplay d.status

unchanged-Left :
    (n : ℕ) (old d : Deal) (db db' : Db) → Left n old db → pure old db ≡ ok (d, db') → Left n d db'
unchanged-Left n old d db db' l h =
    let same : old ≡ d = cc in
    let left : db ≡ db' = cc in subst (λ x. Left n d x) left (subst (λ x. Left n x db) same l)

recorded-Left :
    (n : ℕ) (qty : ℤ) (old d : Deal) (db db' : Db)
    → find deal_key n db.deals ≡ some old
    → (reads (dispatch_checks old qty) >> save_deal set_dispatched (dispatch_to qty old)) db
      ≡ ok (d, db')
    → Left n d db'
unfolding dispatch_to
recorded-Left n qty old d db db' found h =
    let (checks, save) = check-ok (dispatch_checks old qty) _ db db' d h in
    let core =
      Validated-SameCore (save_deal-ok set_dispatched (dispatch_to qty old) d db db' save).0 in
    let rec = dispatch_checks-Recorded old d qty db checks core.status in
    (
      subst (λ m. find deal_key m db'.deals ≡ some d)
          (core.name ∙ find-key deal_key n db.deals old found)
          (find-save_deal set_dispatched (dispatch_to qty old) d db db' save),
      subst TakesReplay (sym core.status) (new_status qty old rec.waited),
    )

locked-Left :
    (n : ℕ) (qty : ℤ) (old d : Deal) (db db' : Db)
    → find deal_key n db.deals ≡ some old
    → record_dispatch_locked old qty db ≡ ok (d, db')
    → Left n d db'
unfolding record_dispatch_locked
locked-Left n qty old d db db' found h =
    elim (Bool-cases (is_status old.status DealStatus.dispatched)) [
      | inl e ↦ elim (Bool-cases (eqb_ℤ qty old.dispatched_qty)) [
        | inl q ↦
            unchanged-Left n old d db db' (found, dispatched e)
              (rw (e, q, record_dispatch_locked) at h)
        | inr q ↦ (let g = (rw (e, q, record_dispatch_locked) at h) in absurd (cc))
      ]
      | inr e ↦
          elim (Bool-cases (
            (is_status old.status DealStatus.outward_pending
              || is_status old.status DealStatus.partially_dispatched)
            && eqb_ℤ qty old.dispatched_qty)) [
              | inl q ↦
                  unchanged-Left n old d db db' (found, waiting q)
                    (rw (e, q, record_dispatch_locked) at h)
              | inr q ↦
                  recorded-Left n qty old d db db' found (rw (e, q, record_dispatch_locked) at h)
            ]
    ]
  where
    dispatched : is_status old.status DealStatus.dispatched ≡ true → TakesReplay old.status
    dispatched e = ground arith

    waiting :
        ((is_status old.status DealStatus.outward_pending
              || is_status old.status DealStatus.partially_dispatched)
            && eqb_ℤ qty old.dispatched_qty)
          ≡ true
        → TakesReplay old.status
    waiting q = ground arith

record_dispatch-Left :
    (s : Session) (before : Db) (n : ℕ) (qty : ℤ) (d : Deal) (db db' : Db)
    → record_dispatch s before n qty db ≡ ok (d, db')
    → Left n d db'
unfolding record_dispatch
record_dispatch-Left s before n qty d db db' h =
    after_bind (locked_deal before n (λ _. assert_can_record_dispatch s)) _ db db' d h
      λ old m0 e0 h0.
        after_check (λ _. throw_if (ltb_ℤ qty (pos 0)) Error.negative_dispatch) _ m0 db' d h0
          λ e1 h1.
            let (same, found) =
              locked_deal-ok before db m0 n (λ _. assert_can_record_dispatch s) old e0 in
            locked-Left n qty old d m0 db'
              (subst (λ (x : Db). find deal_key n x.deals ≡ some old) same found) h1

-- Where record_dispatch succeeds, the same request on what it left answers the same Deal and
-- writes nothing: a quantity that is recorded may be recorded again.
pub record_dispatch-record_dispatch :
    (s : Session) (before : Db) (n : ℕ) (qty : ℤ) (d : Deal) (db db' : Db)
    → record_dispatch s before n qty db ≡ ok (d, db')
    → record_dispatch s db' n qty db' ≡ ok (d, db')
record_dispatch-record_dispatch s before n qty d db db' h =
    let r = record_dispatch-Dispatched s before n qty d db db' h in
    let l = record_dispatch-Left s before n qty d db db' h in
    replayed_at s n qty d db' l.0 (gate_passed s before n qty d db db' h) r.nonneg r.held l.1
