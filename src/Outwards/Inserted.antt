-- ===== src/Outwards/Inserted.antt =====
-- insert_outward of a Draft: the new row, and its source event.
use fresko_universe.Data.{OutwardFacts, Outward, Session, Digests, OutwardStatus}
use fresko_universe.Db.{
  throw_if-pass, after_query, after_check, after-ok, throw_if, ◌then_check◌, ◌>>◌, pure, reads,
  outward_key, write_outward, Db, ok, Error,
}
use fresko_universe.Outwards.{
  validate_movement_shape, validate_outward_lines, validate_stored_outward, validate_outward,
  before_insert_outward, outward_taken, insert_outward, draft_outward, outward_of_event,
  service_flags,
}
use fresko_universe.Prelude.{
  ℕ, ◌+◌, ◌≡◌, refl, sym, ap, ◌∙◌, inl, inr, false, none, some, List, [], ◌∷◌, ◌==◌, ==-refl,
  Bool-cases, any, find_by, put,
}

-- The database with one more Outward.
abbrev pub with_outward : Outward → Db → Db
with_outward o db = record db {
  next_name = db.next_name + 1;
  outwards = put outward_key o db.outwards;
}

pub insert_outward-draft :
    (g : Digests) (s : Session) (event : ℕ) (facts : OutwardFacts) (o : Outward) (db db' : Db)
    → insert_outward s service_flags (draft_outward g s event facts) db ≡ ok (o, db')
    → (draft_outward g s event facts db.next_name ≡ o)
      × (outward_taken o db ≡ false)
      × (with_outward o db ≡ db')
unfolding insert_outward before_insert_outward draft_outward validate_outward
    validate_stored_outward outward_taken any
insert_outward-draft g s event facts o db db' h =
    after_query
      (λ _. validate_outward s service_flags none (draft_outward g s event facts db.next_name))
      (λ saved.
        reads (λ db. throw_if (outward_taken saved db) Error.unique_violation)
        >> (write_outward saved >> pure saved))
      (record db { next_name = db.next_name + 1 }) db' o h
      λ x e h1.
        let (_, is) =
          after-ok
            (validate_movement_shape (draft_outward g s event facts db.next_name)
              then_check validate_outward_lines facts.lines)
            (ok (draft_outward g s event facts db.next_name)) x e in
        after_check (λ db. throw_if (outward_taken x db) Error.unique_violation)
          (λ _. write_outward x >> pure x) (record db { next_name = db.next_name + 1 }) db' o h1
          λ free h2.
            let p : x ≡ o = cc in
            let q : draft_outward g s event facts db.next_name ≡ x = cc in
            (
              q ∙ p,
              rw (← p) (throw_if-pass (outward_taken x db) Error.unique_violation free),
              rw (← p) (cc),
            )

-- The row that is written is the one of its event, where no other was.
pub event_of_new :
    (o : Outward) (rows : List Outward)
    → find_by (λ x. x.source_event_key == o.source_event_key) rows ≡ none
    → find_by (λ x. x.source_event_key == o.source_event_key) (put outward_key o rows) ≡ some o
unfolding find_by put
event_of_new o [] h = rw ==-refl refl
event_of_new o (x ∷ xs) h = elim (Bool-cases (x.source_event_key == o.source_event_key)) [
  | inl e ↦ (let k = (rw e at h) in absurd (cc))
  | inr e ↦ elim (Bool-cases (x.name == o.name)) [
    | inl f ↦ rw f (rw ==-refl refl)
    | inr f ↦ rw f (rw e (event_of_new o xs (rw e at h)))
  ]
]

-- The request found no Outward of its source event, and added the Draft of its payload.
pub record IsDraft (g : Digests) (s : Session) (event : ℕ) (facts : OutwardFacts) (o : Outward)
    (db db' : Db) : Type 0 where
  pub fresh : outward_of_event event db ≡ none
  pub facts_are : o.facts ≡ facts
  pub of_event : o.source_event_key ≡ event
  pub payload_is : o.payload_sha256 ≡ g.outward_payload facts
  pub name : o.name ≡ db.next_name
  pub status : o.status ≡ OutwardStatus.draft
  pub prepared_by : o.prepared_by ≡ s.user
  pub left : with_outward o db ≡ db'

pub draft_outward-IsDraft :
    (g : Digests) (s : Session) (event : ℕ) (facts : OutwardFacts) (o : Outward) (db db' : Db)
    → outward_of_event event db ≡ none
    → draft_outward g s event facts db.next_name ≡ o
    → with_outward o db ≡ db'
    → IsDraft g s event facts o db db'
unfolding draft_outward
draft_outward-IsDraft g s event facts o db db' fresh draft left = record {
  fresh = fresh;
  facts_are = ap (λ (y : Outward). y.facts) (sym draft);
  of_event = ap (λ (y : Outward). y.source_event_key) (sym draft);
  payload_is = ap (λ (y : Outward). y.payload_sha256) (sym draft);
  name = ap outward_key (sym draft);
  status = ap (λ (y : Outward). y.status) (sym draft);
  prepared_by = ap (λ (y : Outward). y.prepared_by) (sym draft);
  left = left;
}
