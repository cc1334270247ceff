-- ===== src/Outwards/Saved.antt =====
-- What the load and the save of an Outward give.
use fresko_universe.Data.{Outward, Session, LedgerFlags, OutwardStatus}
use fresko_universe.Db.{
  throw_if, ◌then_check◌, ◌>>◌, pure, outward_key, get_outward, write_outward, check-ok, query-ok,
  or_throw-ok, after_query, after-ok, Db, ok, Error,
}
use fresko_universe.Outwards.{
  validate_movement_shape, validate_outward_lines, outward_transition, validate_stored_outward,
  validate_outward, save_outward, load_outward_for_update,
}
use fresko_universe.Prelude.{ℕ, ◌≡◌, ap, ◌∙◌, ◌≢◌, ◌⊎◌, true, not, some, arith, ◌==◌, find, put}

-- The Outward that was loaded is the stored one, and the database is as it was.
pub load_outward_for_update-ok :
    (before db db' : Db) (n : ℕ) (o : Outward)
    → load_outward_for_update before n db ≡ ok (o, db')
    → (db ≡ db') × (find outward_key n db.outwards ≡ some o)
unfolding load_outward_for_update
load_outward_for_update-ok before db db' n o h =
    let (probe, e1, h1) = query-ok (λ _. get_outward n before) _ db db' o h in
    let (x, e2, h2) = query-ok (get_outward n) _ db db' o h1 in
    let (e3, h3) =
      check-ok (λ _. throw_if (not (x.container == probe.container)) Error.container_changed) _ db
        db' o h2 in
    let p : x ≡ o = cc in
    ((cc), or_throw-ok (find outward_key n db.outwards) Error.not_found o (e2 ∙ ap ok p))

-- A save that succeeds: what was validated is written.
pub save_outward-ok :
    (s : Session) (flags : LedgerFlags) (o saved : Outward) (db db' : Db)
    → save_outward s flags o db ≡ ok (saved, db')
    → (validate_stored_outward s flags (find outward_key o.name db.outwards) o ≡ ok saved)
      × (record db { outwards = put outward_key saved db.outwards } ≡ db')
unfolding save_outward validate_outward
save_outward-ok s flags o saved db db' h =
    after_query (λ db. validate_outward s flags (find outward_key o.name db.outwards) o)
      (λ saved. write_outward saved >> pure saved) db db' saved h
      λ x e k.
        let is : x ≡ saved = cc in
        let (c, v) =
          after-ok (validate_movement_shape o then_check validate_outward_lines o.lines)
            (validate_stored_outward s flags (find outward_key o.name db.outwards) o) saved
            (e ∙ ap ok is) in
        (v, rw (← is) (cc))

-- The transitions of a stored Outward: only from Draft to Review Pending by its maker, and from
-- there to Posted by someone who neither made nor submitted it; nothing else changes but the
-- stamp of the transition.
pub record Moved (s : Session) (flags : LedgerFlags) (old o saved : Outward) : Type 0 where
  pub service : flags.in_service ≡ true
  pub name : saved.name ≡ o.name
  pub facts : saved.facts ≡ o.facts
  pub event : saved.source_event_key ≡ o.source_event_key
  pub payload : saved.payload_sha256 ≡ o.payload_sha256
  pub maker : saved.prepared_by ≡ o.prepared_by
  pub status : saved.status ≡ o.status
  pub move :
      ((old.status ≡ OutwardStatus.draft)
        × (o.status ≡ OutwardStatus.review_pending)
        × (s.user ≡ o.prepared_by)
        × (saved.submitted_by ≡ some s.user))
      ⊎ ((old.status ≡ OutwardStatus.review_pending)
          × (o.status ≡ OutwardStatus.posted)
          × (s.user ≢ o.prepared_by)
          × (o.submitted_by ≢ some s.user)
          × (saved.posted_by ≡ some s.user))

pub validate_stored_outward-Moved :
    (s : Session) (flags : LedgerFlags) (old o saved : Outward)
    → validate_stored_outward s flags (some old) o ≡ ok saved
    → Moved s flags old o saved
unfolding validate_stored_outward outward_transition
validate_stored_outward-Moved s flags old o saved h = ground arith
