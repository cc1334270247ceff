-- ===== src/Outwards/Replayed.antt =====
-- create_outward: a request that is repeated is answered with the same Outward.
use fresko_universe.Access.{PermissionType, outward_has_permission}
use fresko_universe.Data.{OutwardFacts, Outward, Session, Digests}
use fresko_universe.Db.{reads-ok, query-ok, or_throw-ok, on_duplicate-ok, fresh, Db, ok, err, Error}
use fresko_universe.Outwards.{
  insert_outward, company_of, draft_outward, outward_of_event, outward_replay, service_flags,
  replay_winner, current_replay, replay_or_create, create_outward, OutwardRequest,
}
use fresko_universe.Outwards.Asked.{outward_facts-Asked, Asked}
use fresko_universe.Outwards.Inserted.{
  with_outward, insert_outward-draft, event_of_new, draft_outward-IsDraft, IsDraft,
}
use fresko_universe.Outwards.Replay.{
  evidence_seen, not_supplier, may_read, replay_of_new, outward_replay-IsReplay, IsReplay,
}
use fresko_universe.Outwards.Requested.{
  event_of, facts_of, create_outward-Requested, create_outward-ending, Requested-with_outward,
}
use fresko_universe.Prelude.{
  ℕ, ◌≡◌, refl, sym, ap, ◌∙◌, subst, ◌⊎◌, inl, inr, true, false, Option, none, some,
}

-- A request that finds no Outward of its event, in the state that it sees, inserts one.
created :
    (g : Digests) (s : Session) (before : Db) (event : ℕ) (facts : OutwardFacts) (o : Outward)
    (db' : Db)
    → outward_of_event event before ≡ none
    → replay_or_create g s before none event facts before ≡ ok (o, db')
    → (draft_outward g s event facts before.next_name ≡ o) × (with_outward o before ≡ db')
unfolding replay_or_create current_replay replay_winner
created g s before event facts o db' none_there h =
    elim (on_duplicate-ok (insert_outward s service_flags (draft_outward g s event facts))
      (current_replay s event (g.outward_payload facts) before) before db' o h) [
        | inl e ↦
            let (draft, _, written) = insert_outward-draft g s event facts o before db' e in
            (draft, written)
        | inr e ↦ absurd (no_winner e)
      ]
  where
    no_winner : current_replay s event (g.outward_payload facts) before before ≡ ok (o, db') → ⊥
    no_winner e =
        let (winner, f, k) =
          query-ok (λ db. ok (outward_of_event event db))
            (replay_winner s (g.outward_payload facts) before) before db' o e in
        let is : winner ≡ none = (let q = f in cc) in
        let (q, _) =
          reads-ok (λ _. err Error.unique_violation) before db' o
            (subst (λ w. replay_winner s (g.outward_payload facts) before w before ≡ ok (o, db')) is
              k) in
        absurd (cc)

-- The request in the state that it left.
pub record Again (g : Digests) (s : Session) (event : ℕ) (facts : OutwardFacts) (o : Outward)
    (before db' : Db) : Type 0 where
  pub outcome :
      IsReplay event (g.outward_payload facts) o before before db'
      ⊎ IsDraft g s event facts o before db'
  pub again : replay_or_create g s db' (outward_of_event event db') event facts db' ≡ ok (o, db')

draft_outward-Again :
    (g : Digests) (s : Session) (event : ℕ) (facts : OutwardFacts) (before : Db)
    → outward_of_event event before ≡ none
    → outward_has_permission s (some s.user) false PermissionType.read ≡ true
    → Again g s event facts
        (draft_outward g s event facts before.next_name)
        before
        (with_outward (draft_outward g s event facts before.next_name) before)
unfolding outward_of_event replay_or_create draft_outward
draft_outward-Again g s event facts before fresh may = record {
  outcome = inr (
      draft_outward-IsDraft g s event facts (draft_outward g s event facts before.next_name) before
        (with_outward (draft_outward g s event facts before.next_name) before) fresh refl refl);
  again =
      rw (event_of_new (draft_outward g s event facts before.next_name) before.outwards fresh)
        (rw (replay_of_new g s event facts before may) refl);
}

replay_or_create-Again :
    (g : Digests) (s : Session) (event : ℕ) (facts : OutwardFacts) (o : Outward) (before db' : Db)
    → outward_has_permission s (some s.user) false PermissionType.read ≡ true
    → replay_or_create g s before (outward_of_event event before) event facts before ≡ ok (o, db')
    → Again g s event facts o before db'
unfolding replay_or_create
replay_or_create-Again g s event facts o before db' may h =
    at (outward_of_event event before) refl h
  where
    at :
        (x : Option Outward)
        → outward_of_event event before ≡ x
        → replay_or_create g s before x event facts before ≡ ok (o, db')
        → Again g s event facts o before db'
    at (some x) e k =
        let (f, same) =
          reads-ok (λ _. outward_replay s x.name (g.outward_payload facts) before) before db' o k in
        record {
          outcome = inl (
              outward_replay-IsReplay s event (g.outward_payload facts) x o before before db' e f
                same);
          again =
              subst
                (λ y. replay_or_create g s y (outward_of_event event y) event facts y ≡ ok (o, y))
                same (rw e (rw f refl));
        }
    at none e k =
        let (draft, written) = created g s before event facts o db' e k in
        subst (Again g s event facts o before) (ap (λ o. with_outward o before) draft ∙ written) (
          subst
            (λ o.
              Again g s event facts o before
                (with_outward (draft_outward g s event facts before.next_name) before))
            draft (draft_outward-Again g s event facts before e may))

-- What create_outward did with a request.
pub record Repeats (g : Digests) (s : Session) (r : OutwardRequest) (o : Outward) (db db' : Db)
    : Type 0 where
  pub id : ℕ
  pub named : r.source_event_id ≡ some id
  pub facts : OutwardFacts
  pub asked : Asked g (event_of g r id) (company_of r.container db) r facts
  pub outcome :
      IsReplay (event_of g r id) (g.outward_payload facts) o db db db'
      ⊎ IsDraft g s (event_of g r id) facts o db db'
  pub again : create_outward g s db' r db' ≡ ok (o, db')

-- Where create_outward answers a request, with its snapshot as the state: its payload has every
-- member as it was passed, the company of the Container, and, for each line that was passed, one
-- with its reference, lot, batch, texts, unit and quantity, which is positive. Either an Outward
-- of the source event was there, the answer is the row of its name, has the digest of that
-- payload, and nothing is written; or none was, and the answer is a new Draft of the caller with
-- that payload and event, which is all that is added. The same request in the state that is left
-- is answered with the same Outward, and nothing more is written.
pub create_outward-Repeats :
    (g : Digests) (s : Session) (r : OutwardRequest) (o : Outward) (db db' : Db)
    → create_outward g s db r db ≡ ok (o, db')
    → Repeats g s r o db db'
unfolding company_of
create_outward-Repeats g s r o db db' h =
    let (id, lines, q, e) = create_outward-Requested g s db r o db db' h in
    let may = may_read s q.gate (
      not_supplier s r.source_evidence PermissionType.read db
        (evidence_seen s r.source_evidence r.container db q.evidence)) in
    let a = replay_or_create-Again g s (event_of g r id) (facts_of g db r lines) o db db' may e in
    record {
      id = id;
      named = or_throw-ok r.source_event_id Error.event_required id q.named;
      facts = facts_of g db r lines;
      asked = outward_facts-Asked g (event_of g r id) (company_of r.container db) r lines q.normal;
      outcome = a.outcome;
      again = elim a.outcome [
        | inl replay ↦
            subst (λ y. create_outward g s y r y ≡ ok (o, y)) replay.same
              (h ∙ ap (λ y. ok (o, y)) (sym replay.same))
        | inr draft ↦
            subst (λ y. create_outward g s y r y ≡ ok (o, y)) draft.left
              (create_outward-ending g s (with_outward o db) r id lines (with_outward o db)
                  (Requested-with_outward g s db r id lines o q)
                ∙ subst
                    (λ y.
                      replay_or_create g s y (outward_of_event (event_of g r id) y)
                        (event_of g r id) (facts_of g db r lines) y
                      ≡ ok (o, y))
                    (sym draft.left) a.again)
      ];
    }
