-- ===== src/Lifecycle.antt =====
-- A run of the application: requests of any users, one after the other, each of which succeeds
-- and commits. What a request probed before it got its lock may be any earlier state.
-- A deletion from the Desk and a request on an Outward or an assertion are no steps of such a run.
pub mod Inserting
pub mod Final
pub mod Applied
pub mod Keys
use fresko_universe.Approvals.{decide}
use fresko_universe.ContainerDoc.{save_container}
use fresko_universe.Data.{
  Deal, Container, Approval, Revision, no_flags, Session, Decision, FieldName,
}
use fresko_universe.Db.{deal_key, Db, ok}
use fresko_universe.DealDoc.{save_deal, insert_deal}
use fresko_universe.Deals.{
  accept_counter, cancel_deal, advance_to_legacy_outward_pending, record_dispatch, apply_rate_rules,
}
use fresko_universe.Prelude.{ℕ, ◌≡◌, Bool, false, Option, none, some, Ref, find}
use fresko_universe.Prelude.Int.{ℤ}
use fresko_universe.Revisions.{
  save_revision, request_revision, create_revision_approval, apply_revision, Texts,
}

-- The insert of a Deal under a name that no Deal has, a whitelisted method, or a save of a Deal, a
-- Container or a Revision from the Desk, that succeeds.
pub data Step (t : Texts) (db db' : Db) : Type 0 where
  by_inserting :
      (fingerprint : Deal → ℕ) (d d' : Deal)
      → find deal_key db.next_name db.deals ≡ none
      → insert_deal fingerprint d db ≡ ok (d', db')
      → Step t db db'
  by_rate_rules :
      (s : Session) (before : Db) (n : ℕ) (d : Deal)
      → apply_rate_rules s before n db ≡ ok (d, db')
      → Step t db db'
  by_accepting :
      (s : Session) (before : Db) (n : ℕ) (d : Deal)
      → accept_counter s before n db ≡ ok (d, db')
      → Step t db db'
  by_cancelling :
      (s : Session) (n : ℕ) (reason : Ref) (d : Deal)
      → cancel_deal s n reason db ≡ ok (d, db')
      → Step t db db'
  by_advancing :
      (s : Session) (before : Db) (n : ℕ) (d : Deal)
      → advance_to_legacy_outward_pending s before n db ≡ ok (d, db')
      → Step t db db'
  by_dispatching :
      (s : Session) (before : Db) (n : ℕ) (qty : ℤ) (d : Deal)
      → record_dispatch s before n qty db ≡ ok (d, db')
      → Step t db db'
  by_deciding :
      (s : Session) (before : Db) (n : ℕ) (decision : Decision) (rate : Option ℤ) (reason : Ref)
      (oversell : Bool) (d : Deal)
      → decide s before n decision rate reason oversell db ≡ ok (d, db')
      → Step t db db'
  by_requesting :
      (s : Session) (n : ℕ) (field : FieldName) (new_value reason evidence : Ref) (r : Revision)
      → request_revision t s n field new_value reason evidence db ≡ ok (r, db')
      → Step t db db'
  by_minting :
      (s : Session) (n : ℕ) (decision : Decision) (rate : Option ℤ) (reason : Ref) (a : Approval)
      → create_revision_approval s n decision rate reason db ≡ ok (a, db')
      → Step t db db'
  by_revising :
      (s : Session) (n : ℕ) (passed : Ref) (r : Revision)
      → apply_revision t s n passed db ≡ ok (r, db')
      → Step t db db'
  by_container :
      (companies : Ref → Bool) (reason : Bool) (c : Container)
      → save_container companies reason c db ≡ ok (tt, db')
      → Step t db db'
  by_revision_desk : (r : Revision) → save_revision false r db ≡ ok (tt, db') → Step t db db'
  by_desk :
      (old d d' : Deal)
      → find deal_key d.name db.deals ≡ some old
      → save_deal no_flags d db ≡ ok (d', db')
      → Step t db db'

-- Any number of steps.
pub data Reaches (t : Texts) (db : Db) : Db → Type 0 where
  here : Reaches t db db
  next : {x y : Db} → Reaches t db x → Step t x y → Reaches t db y
