-- ===== src/Quantities/Reviewed.antt =====
-- review_quantity_assertion: who decides, what is stored, and what stays the only active one.
use fresko_universe.Access.{assert_can_post_outward}
use fresko_universe.Data.{
  QuantityAssertion, Session, Digests, is_assertion, AssertionStatus, Review,
}
use fresko_universe.Db.{
  throw_if-pass, reads-ok, query-ok, or_throw-ok, after_bind, after_check, throw_if, M, ◌>>=◌, ◌>>◌,
  reads, check, quantity_key, get_assertion, Db, ok, Error,
}
use fresko_universe.Prelude.{
  ℕ, ◌≡◌, sym, ◌∙◌, subst, ◌≢◌, ◌⊎◌, inl, inr, true, false, ◌||◌, not, some, arith, ◌==◌,
  if◌then◌else◌, ==-refl, not-false, Bool-cases, find, find-key,
}
use fresko_universe.Quantities.{
  locked_assertion, terminal_replay, is_terminal, decide_review, is_invalid_review,
  review_quantity_assertion,
}
use fresko_universe.Quantities.Deciding.{decided_status, decide_review-Decided}
use fresko_universe.Quantities.Others.{Others-OthersKept, OthersKept}
use fresko_universe.Quantities.Overtaken.{decide_review-Others}
use fresko_universe.Quantities.Sole.{SoleActive}

-- The assertion waited, and was decided on by an approver or a System Manager other than its
-- maker, with its payload as it was; of the other rows, the one that it replaces, which was active,
-- is superseded by it, and no other changes.
pub record NewlyReviewed (s : Session) (n : ℕ) (decision : Review) (old a : QuantityAssertion)
    (db db' : Db) : Type 0 where
  pub waited : old.status ≡ AssertionStatus.review_pending
  pub may : (s.system_manager || s.approver) ≡ true
  pub not_maker : s.user ≢ old.prepared_by
  pub facts : a.facts ≡ old.facts
  pub payload : a.payload_sha256 ≡ old.payload_sha256
  pub status : a.status ≡ decided_status decision old.status
  pub stored : find quantity_key n db'.assertions ≡ some a
  pub others : OthersKept decision old db db'

-- What review_quantity_assertion answers.
pub record ReviewOutcome (s : Session) (n : ℕ) (decision : Review) (a : QuantityAssertion)
    (db db' : Db) : Type 0 where
  pub old : QuantityAssertion
  pub found : find quantity_key n db.assertions ≡ some old
  pub outcome :
      ((is_terminal old ≡ true) × (a ≡ old) × (db' ≡ db)) ⊎ NewlyReviewed s n decision old a db db'
  pub sole : SoleActive db.assertions → SoleActive db'.assertions

locked_assertion-ok :
    (before db db' : Db) (n : ℕ) (a : QuantityAssertion)
    → locked_assertion before n db ≡ ok (a, db')
    → (db ≡ db') × (find quantity_key n db.assertions ≡ some a)
unfolding locked_assertion
locked_assertion-ok before db db' n a h =
    let (probe, e1, h1) =
      query-ok (λ _. get_assertion n before) (λ _. reads (get_assertion n)) db db' a h in
    let (e2, same) = reads-ok (get_assertion n) db db' a h1 in
    (same, or_throw-ok (find quantity_key n db.assertions) Error.not_found a e2)

terminal_replay-same :
    (decision : Review) (a b : QuantityAssertion) → terminal_replay decision a ≡ ok b → b ≡ a
unfolding terminal_replay
terminal_replay-same Review.activate a b h = ground arith
terminal_replay-same Review.reject a b h = ground arith
terminal_replay-same Review.invalid a b h = ground arith

is_assertion-eq : (a b : AssertionStatus) → is_assertion a b ≡ true → a ≡ b
is_assertion-eq a b h = ground arith

newly_reviewed :
    (g : Digests) (s : Session) (now : ℕ) (before : Db) (n : ℕ) (decision : Review)
    (old a : QuantityAssertion) (db db' : Db)
    → (s.system_manager || s.approver) ≡ true
    → find quantity_key n db.assertions ≡ some old
    → (check (
            throw_if
              (not (is_assertion old.status AssertionStatus.review_pending))
              Error.wrong_status)
          >> (check (throw_if (old.prepared_by == s.user) Error.maker_is_checker)
              >> decide_review g s now before decision old))
        db
      ≡ ok (a, db')
    → ReviewOutcome s n decision a db db'
newly_reviewed g s now before n decision old a db db' may found h =
    after_check
      (λ _.
        throw_if (not (is_assertion old.status AssertionStatus.review_pending)) Error.wrong_status)
      (λ _.
        check (throw_if (old.prepared_by == s.user) Error.maker_is_checker)
        >> decide_review g s now before decision old)
      db db' a h
      λ waits h1.
        after_check (λ _. throw_if (old.prepared_by == s.user) Error.maker_is_checker)
          (λ _. decide_review g s now before decision old) db db' a h1
          λ maker h2.
            let d = decide_review-Decided g s now before decision old a db db' h2 in
            let named = find-key quantity_key n db.assertions old found in
            let own : find quantity_key old.name db.assertions ≡ some old =
              subst (λ m. find quantity_key m db.assertions ≡ some old) (sym named) found in
            let waited =
              is_assertion-eq old.status AssertionStatus.review_pending
                (not-false _ (throw_if-pass _ Error.wrong_status waits)) in
            let other : (old.prepared_by == s.user) ≡ false =
              throw_if-pass _ Error.maker_is_checker maker in
            record {
              old = old;
              found = found;
              outcome = inr (record {
                waited = waited;
                may = may;
                not_maker = λ e. (let k = (rw (e, ==-refl) at other) in absurd (cc));
                facts = d.as_passed.facts;
                payload = d.as_passed.payload;
                status = d.as_passed.status;
                stored = subst (λ m. find quantity_key m db'.assertions ≡ some a) named (d.stored);
                others =
                    Others-OthersKept decision old db db' own waited
                      (decide_review-Others g s now before decision old a db db' h2);
              });
              sole = d.sole;
            }

-- Where review_quantity_assertion succeeds, the assertion had been decided on before, and nothing
-- is written; or it waited for review and is stored as Active or Rejected, as the decision says,
-- by an approver or a System Manager other than its maker, with its payload as it was. Then,
-- where it is activated and names one that it supersedes, that one was Active and is stored as
-- Superseded by it, else as it was; and every other assertion is as it was. If each Container,
-- basis and unit had one active assertion at most, that is so afterwards.
pub review_quantity_assertion-ReviewOutcome :
    (g : Digests) (s : Session) (now : ℕ) (before : Db) (n : ℕ) (decision : Review)
    (a : QuantityAssertion) (db db' : Db)
    → review_quantity_assertion g s now before n decision db ≡ ok (a, db')
    → ReviewOutcome s n decision a db db'
unfolding review_quantity_assertion assert_can_post_outward
review_quantity_assertion-ReviewOutcome g s now before n decision a db db' h =
    after_check (λ _. assert_can_post_outward s) (λ _. locked_assertion before n >>= on_locked) db
      db' a h
      λ gate h1. after_bind (locked_assertion before n) on_locked db db' a h1 λ old m0 e0 h2.
        let (same, found) = locked_assertion-ok before db m0 n old e0 in
        let may =
          not-false (s.system_manager || s.approver)
            (throw_if-pass _ Error.permission_denied gate) in
        after_check (λ _. throw_if (is_invalid_review decision) Error.invalid_decision)
          (decide_on old) m0 db' a h2
          λ _ h3. elim (Bool-cases (is_terminal old)) [
            | inl e ↦
                let (k, end) = reads-ok (λ _. terminal_replay decision old) m0 db' a (rw e at h3) in
                let stays : db' ≡ db = sym (same ∙ end) in
                record {
                  old = old;
                  found = found;
                  outcome = inl (e, terminal_replay-same decision old a k, stays);
                  sole = λ was. rw stays was;
                }
            | inr e ↦
                newly_reviewed g s now before n decision old a db db' may found
                  (subst (λ y. waiting old y ≡ ok (a, db')) (sym same) (rw e at h3))
          ]
  where
    waiting : QuantityAssertion → M QuantityAssertion
    waiting old =
        check (
          throw_if (not (is_assertion old.status AssertionStatus.review_pending))
            Error.wrong_status)
        >> (check (throw_if (old.prepared_by == s.user) Error.maker_is_checker)
            >> decide_review g s now before decision old)

    decide_on : QuantityAssertion → Unit {0} → M QuantityAssertion
    decide_on old _ =
        if is_terminal old then (reads λ _. terminal_replay decision old) else waiting old

    on_locked : QuantityAssertion → M QuantityAssertion
    on_locked old =
        check (throw_if (is_invalid_review decision) Error.invalid_decision) >>= decide_on old
