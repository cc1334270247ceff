-- ===== src/Outwards/Added.antt =====
-- create_outward and create_outward_reversal write one new Draft, or nothing.
use fresko_universe.Data.{OutwardFacts, Outward, Session, Digests}
use fresko_universe.Db.{
  M, outward_key, on_duplicate, reads-ok, query-ok, on_duplicate-ok, Db, ok, err, Error,
}
use fresko_universe.Outwards.{
  outward_taken, insert_outward, draft_outward, outward_of_event, outward_replay, service_flags,
  replay_winner, current_replay, replay_or_create, create_outward, OutwardRequest,
}
use fresko_universe.Outwards.Inserted.{with_outward, insert_outward-draft}
use fresko_universe.Outwards.Requested.{event_of, facts_of, create_outward-Requested}
use fresko_universe.Prelude.{ℕ, ◌≡◌, sym, ap, ◌⊎◌, inl, inr, false, Option, none, some}

-- A Draft stands under the next name, its unique columns being free.
pub record Added (o : Outward) (db db' : Db) : Type 0 where
  pub name : o.name ≡ db.next_name
  pub free : outward_taken o db ≡ false
  pub left : with_outward o db ≡ db'

inserted :
    (g : Digests) (s : Session) (event : ℕ) (facts : OutwardFacts) (k : M Outward) (o : Outward)
    (db db' : Db)
    → (k db ≡ ok (o, db') → db ≡ db')
    → on_duplicate (insert_outward s service_flags (draft_outward g s event facts)) k db
      ≡ ok (o, db')
    → (db ≡ db') ⊎ Added o db db'
unfolding draft_outward
inserted g s event facts k o db db' quiet h =
    elim (on_duplicate-ok (insert_outward s service_flags (draft_outward g s event facts)) k db db'
      o h) [
        | inl e ↦
            let (draft, free, left) = insert_outward-draft g s event facts o db db' e in
            inr (record { name = ap outward_key (sym draft); free = free; left = left })
        | inr e ↦ inl (quiet e)
      ]

current_replay-same :
    (s : Session) (event payload : ℕ) (before : Db) (o : Outward) (db db' : Db)
    → current_replay s event payload before db ≡ ok (o, db')
    → db ≡ db'
unfolding current_replay replay_winner
current_replay-same s event payload before o db db' h =
    let (w, e, k) =
      query-ok (λ db. ok (outward_of_event event db)) (replay_winner s payload before) db db' o h in
    at w k
  where
    at : (w : Option Outward) → replay_winner s payload before w db ≡ ok (o, db') → db ≡ db'
    at none k = let (_, p) = reads-ok (λ _. err Error.unique_violation) db db' o k in p
    at (some x) k =
        let (_, p) = reads-ok (λ _. outward_replay s x.name payload before) db db' o k in p

pub create_outward-Added :
    (g : Digests) (s : Session) (before : Db) (r : OutwardRequest) (o : Outward) (db db' : Db)
    → create_outward g s before r db ≡ ok (o, db')
    → (db ≡ db') ⊎ Added o db db'
unfolding replay_or_create
create_outward-Added g s before r o db db' h =
    let (id, lines, q, e) = create_outward-Requested g s before r o db db' h in
    at (event_of g r id) (facts_of g before r lines) (outward_of_event (event_of g r id) before) e
  where
    at :
        (event : ℕ) (facts : OutwardFacts) (x : Option Outward)
        → replay_or_create g s before x event facts db ≡ ok (o, db')
        → (db ≡ db') ⊎ Added o db db'
    at event facts (some x) k =
        let (_, p) =
          reads-ok (λ _. outward_replay s x.name (g.outward_payload facts) before) db db' o k in
        inl p
    at event facts none k =
        inserted g s event facts (current_replay s event (g.outward_payload facts) before) o db db'
          (current_replay-same s event (g.outward_payload facts) before o db db') k
