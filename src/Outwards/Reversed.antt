-- ===== src/Outwards/Reversed.antt =====
-- create_outward_reversal: a replay, or the mirror of a posted Outward.
use fresko_universe.Access.{PermissionType, assert_can_prepare_outward, outward_has_permission}
use fresko_universe.Data.{OutwardFacts, Outward, Session, Digests}
use fresko_universe.Db.{
  throw_if-pass, reads-ok, check-ok, query-ok, or_throw-ok, after_bind, on_duplicate-ok, throw_if,
  or_throw, M, ◌>>=◌, ◌>>◌, reads, check, outward_key, fresh, on_duplicate, Db, ok, err, Error,
}
use fresko_universe.Outwards.{
  outward_taken, insert_outward, assert_evidence_container, reversal_exists, reversal_facts,
  is_posted_outward, reversal_conflict, recover_reversal, replay_or_reverse,
  create_outward_reversal, ReversalRequest, draft_outward, outward_of_event, outward_replay,
  service_flags, load_outward_for_update,
}
use fresko_universe.Outwards.Inserted.{with_outward, insert_outward-draft}
use fresko_universe.Outwards.Mirror.{
  reversal_facts-AskedReversal, drafted-Mirrors, AskedReversal, Mirrors,
}
use fresko_universe.Outwards.Replay.{outward_replay-IsReplay, IsReplay}
use fresko_universe.Outwards.Saved.{load_outward_for_update-ok}
use fresko_universe.Prelude.{
  ℕ, ◌≡◌, sym, subst, ◌⊎◌, inl, inr, true, false, not, Option, none, some, if◌then◌else◌, is_set,
  not-false, find,
}

-- The insert of a reversal whose event has no Outward.
reversed :
    (g : Digests) (s : Session) (before : Db) (event original : ℕ) (facts : OutwardFacts)
    (o : Outward) (db db' : Db)
    → outward_of_event event db ≡ none
    → replay_or_reverse g s before none event original facts db ≡ ok (o, db')
    → (reversal_exists original none db ≡ false)
      × (draft_outward g s event facts db.next_name ≡ o)
      × (outward_taken o db ≡ false)
      × (with_outward o db ≡ db')
unfolding replay_or_reverse recover_reversal reversal_conflict
reversed g s before event original facts o db db' fresh h =
    let (free, h1) =
      check-ok (λ db. throw_if (reversal_exists original none db) Error.already_reversed)
        (λ _.
          on_duplicate (insert_outward s service_flags (draft_outward g s event facts))
            (recover_reversal s event (g.outward_payload facts) original before))
        db db' o h in
    let unreversed = throw_if-pass _ Error.already_reversed free in
    elim (on_duplicate-ok (insert_outward s service_flags (draft_outward g s event facts))
      (recover_reversal s event (g.outward_payload facts) original before) db db' o h1) [
        | inl e ↦
            let (draft, untaken, written) = insert_outward-draft g s event facts o db db' e in
            (unreversed, draft, untaken, written)
        | inr e ↦ absurd (no_winner unreversed e)
      ]
  where
    no_winner :
        reversal_exists original none db ≡ false
        → recover_reversal s event (g.outward_payload facts) original before db ≡ ok (o, db')
        → ⊥
    no_winner free e =
        let (winner, f, k) =
          query-ok (λ db. ok (outward_of_event event db))
            (reversal_conflict s event (g.outward_payload facts) original before) db db' o e in
        let is : winner ≡ none = (let q = f in cc) in
        let (q, _) =
          reads-ok
            (λ db.
              if reversal_exists original none db
              then err Error.already_reversed
              else err Error.unique_violation)
            db db' o
            (subst
              (λ w.
                reversal_conflict s event (g.outward_payload facts) original before w db
                ≡ ok (o, db'))
              is k) in
        let j = (rw free at q) in absurd (cc)

replayed_or_reversed :
    (g : Digests) (s : Session) (before : Db) (r : ReversalRequest) (event : ℕ)
    (original o : Outward) (x : Option Outward) (db db' : Db)
    → is_posted_outward original ≡ true
    → outward_of_event event db ≡ x
    → replay_or_reverse g s before x event original.name (reversal_facts g original r event) db
      ≡ ok (o, db')
    → IsReplay event (g.outward_payload (reversal_facts g original r event)) o before db db'
      ⊎ Mirrors g s event (reversal_facts g original r event) original o db db'
unfolding replay_or_reverse
replayed_or_reversed g s before r event original o (some x) db db' posted e h =
    let payload = g.outward_payload (reversal_facts g original r event) in
    let (k, same) = reads-ok (λ _. outward_replay s x.name payload before) db db' o h in
    inl (outward_replay-IsReplay s event payload x o before db db' e k same)
replayed_or_reversed g s before r event original o none db db' posted e h =
    let (free, draft, untaken, left) =
      reversed g s before event original.name (reversal_facts g original r event) o db db' e h in
    inr (drafted-Mirrors g s r event original o db db' posted free e draft untaken left)

-- What create_outward_reversal did with a request.
pub record Reversal (g : Digests) (s : Session) (before : Db) (r : ReversalRequest) (o : Outward)
    (db db' : Db) : Type 0 where
  pub original : Outward
  pub found : find outward_key r.outward_name db.outwards ≡ some original
  pub posted : is_posted_outward original ≡ true
  pub reasoned : is_set r.reason ≡ true
  pub id : ℕ
  pub named : r.source_event_id ≡ some id
  pub facts : OutwardFacts
  pub asked :
      AskedReversal g (g.outward_event original.container r.source_evidence id) original r facts
  pub outcome :
      IsReplay
        (g.outward_event original.container r.source_evidence id)
        (g.outward_payload facts)
        o
        before
        db
        db'
      ⊎ Mirrors g s
          (g.outward_event original.container r.source_evidence id)
          facts
          original
          o
          db
          db'

-- Where create_outward_reversal succeeds, the request gives a reason and a source event, and
-- names a posted OUTWARD; its payload has the original's Container, Deal, party and gatepass,
-- names the original, and has its lots, units and quantities line by line. Either an Outward of
-- the event that the Container, the evidence and the event's id give was there, the answer is the
-- row of its name in the snapshot, has the digest of that payload, and nothing is written; or
-- none was, nothing reversed the original, and the answer is a new Draft of the caller with that
-- payload and event, on which the checks that post_outward makes on the original pass in the
-- state that is left.
pub create_outward_reversal-Mirrors :
    (g : Digests) (s : Session) (before : Db) (r : ReversalRequest) (o : Outward) (db db' : Db)
    → create_outward_reversal g s before r db ≡ ok (o, db')
    → Reversal g s before r o db db'
unfolding create_outward_reversal
create_outward_reversal-Mirrors g s before r o db db' h =
    let (gate, h1) = check-ok (λ _. assert_can_prepare_outward s) (λ _. reasoned) db db' o h in
    let (reason, h2) =
      check-ok (λ _. throw_if (not (is_set r.reason)) Error.reversal_reason_required) (λ _. loaded)
        db db' o h1 in
    after_bind (load_outward_for_update before r.outward_name) permitted db db' o h2
      λ original m0 e0 h3.
        let (same, found) = load_outward_for_update-ok before db m0 r.outward_name original e0 in
        let (perm, h4) =
          check-ok
            (λ _.
              throw_if
                (not
                  (outward_has_permission s (some original.prepared_by) false PermissionType.read))
                Error.permission_denied)
            (λ _. of_posted original) m0 db' o h3 in
        let (status, h5) =
          check-ok (λ _. throw_if (not (is_posted_outward original)) Error.not_posted_outward)
            (λ _. evidenced original) m0 db' o h4 in
        let posted = not-false _ (throw_if-pass _ Error.not_posted_outward status) in
        let (seen, h6) =
          check-ok (λ _. assert_evidence_container s r.source_evidence original.container before)
            (λ _. named original) m0 db' o h5 in
        let (id, given, h7) =
          query-ok (λ _. or_throw r.source_event_id Error.event_required) (existing original) m0 db'
            o h6 in
        let (x, e8, h8) =
          query-ok (λ db. ok (outward_of_event (event original id) db)) (last original id) m0 db' o
            h7 in
        record {
          original = original;
          found = found;
          posted = posted;
          reasoned = not-false _ (throw_if-pass _ Error.reversal_reason_required reason);
          id = id;
          named = or_throw-ok r.source_event_id Error.event_required id given;
          facts = reversal_facts g original r (event original id);
          asked = reversal_facts-AskedReversal g (event original id) original r;
          outcome =
              replayed_or_reversed g s before r (event original id) original o x db db' posted
                (rw same (cc)) (subst (λ y. last original id x y ≡ ok (o, db')) (sym same) h8);
        }
  where
    event : Outward → ℕ → ℕ
    event original id = g.outward_event original.container r.source_evidence id

    last : Outward → ℕ → Option Outward → M Outward
    last original id x =
        replay_or_reverse g s before x (event original id) original.name
          (reversal_facts g original r (event original id))

    existing : Outward → ℕ → M Outward
    existing original id =
        reads (λ db. ok (outward_of_event (event original id) db)) >>= last original id

    named : Outward → M Outward
    named original =
        reads (λ _. or_throw r.source_event_id Error.event_required) >>= existing original

    evidenced : Outward → M Outward
    evidenced original =
        check (assert_evidence_container s r.source_evidence original.container before)
        >> named original

    of_posted : Outward → M Outward
    of_posted original =
        check (throw_if (not (is_posted_outward original)) Error.not_posted_outward)
        >> evidenced original

    permitted : Outward → M Outward
    permitted original =
        check (
          throw_if
            (not (outward_has_permission s (some original.prepared_by) false PermissionType.read))
            Error.permission_denied)
        >> of_posted original

    loaded : M Outward
    loaded = load_outward_for_update before r.outward_name >>= permitted

    reasoned : M Outward
    reasoned = check (throw_if (not (is_set r.reason)) Error.reversal_reason_required) >> loaded
