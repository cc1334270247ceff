-- ===== src/DealDoc/KeepsKeys.antt =====
-- The idempotency keys that no two Deals share, under every action.
use fresko_universe.ContainerDoc.{save_container}
use fresko_universe.Data.{Deal, Container, ExceptionDoc, Approval, Revision, Flags}
use fresko_universe.Db.{
  ◌>>=◌, ◌>>◌, pure, deal_key, write_deal, write_exception, write_approval, write_revision,
  write_container, fresh, Db, Result, ok, err,
}
use fresko_universe.Db.Relates.{Ends, Relates}
use fresko_universe.DealDoc.{
  message_taken, fingerprint_taken, compute_amount, save_deal, insert_deal,
}
use fresko_universe.DealDoc.Closed.{Closed, closed_rules}
use fresko_universe.DealDoc.Evolves.{find-save_deal, SameTrack}
use fresko_universe.DealDoc.Inserted.{insert_deal-Inserted}
use fresko_universe.DealDoc.Kept.{Validated}
use fresko_universe.DealDoc.Keys.{keys-pass}
use fresko_universe.DealDoc.Passed.{Validated-Passed, save_deal-ok}
use fresko_universe.Exceptions.{resolve_buyer_exceptions}
use fresko_universe.Prelude.{
  ℕ, ◌≡◌, refl, sym, subst, Bool, true, false, Option, some, Ref, is_set, Unshared, put-Unshared,
  untaken-NoneElsewhere, kept-NoneElsewhere, find, put,
}

-- Where no two Deals share a message id, or a fingerprint, that stays so.
pub record KeepsKeys (db db' : Db) : Type 0 where
  pub message :
      Unshared deal_key (λ d. d.source_message_id) db.deals
      → Unshared deal_key (λ d. d.source_message_id) db'.deals
  pub fingerprint :
      Unshared deal_key (λ d. d.duplicate_fingerprint) db.deals
      → Unshared deal_key (λ d. d.duplicate_fingerprint) db'.deals

pub KeepsKeys-refl : (db : Db) → KeepsKeys db db
KeepsKeys-refl db = record { message = λ u. u; fingerprint = λ u. u }

pub KeepsKeys-trans : (x y z : Db) → KeepsKeys x y → KeepsKeys y z → KeepsKeys x z
KeepsKeys-trans x y z h k = record {
  message = λ u. k.message (h.message u);
  fingerprint = λ u. k.fingerprint (h.fingerprint u);
}

-- The tables of other documents can be written freely.
write_exception-KeepsKeys : (x : ExceptionDoc) → Relates KeepsKeys (write_exception x)
write_exception-KeepsKeys x = record {
  at = λ db. record { message = λ u. u; fingerprint = λ u. u };
}

write_approval-KeepsKeys : (a : Approval) → Relates KeepsKeys (write_approval a)
write_approval-KeepsKeys a = record { at = λ db. record { message = λ u. u; fingerprint = λ u. u } }

pub write_revision-KeepsKeys : (r : Revision) → Relates KeepsKeys (write_revision r)
write_revision-KeepsKeys r = record { at = λ db. record { message = λ u. u; fingerprint = λ u. u } }

write_container-KeepsKeys : (c : Container) → Relates KeepsKeys (write_container c)
write_container-KeepsKeys c = record {
  at = λ db. record { message = λ u. u; fingerprint = λ u. u };
}

fresh-KeepsKeys : Relates KeepsKeys fresh
fresh-KeepsKeys = record { at = λ db. record { message = λ u. u; fingerprint = λ u. u } }

-- Writing a Deal whose keys are not taken.
untaken-KeepsKeys :
    (db : Db) (d : Deal)
    → (is_set d.source_message_id ≡ true → message_taken db d ≡ false)
    → (is_set d.duplicate_fingerprint ≡ true → fingerprint_taken db d ≡ false)
    → KeepsKeys db (record db { deals = put deal_key d db.deals })
unfolding message_taken fingerprint_taken
untaken-KeepsKeys db d m f = record {
  message = λ u.
      put-Unshared deal_key (λ d. d.source_message_id) d db.deals
        (untaken-NoneElsewhere deal_key (λ d. d.source_message_id) d db.deals m) u;
  fingerprint = λ u.
      put-Unshared deal_key (λ d. d.duplicate_fingerprint) d db.deals
        (untaken-NoneElsewhere deal_key (λ d. d.duplicate_fingerprint) d db.deals f) u;
}

-- Writing a Deal that keeps the keys of the stored one.
tracked-KeepsKeys :
    (db : Db) (old d : Deal)
    → find deal_key d.name db.deals ≡ some old
    → SameTrack old d
    → KeepsKeys db (record db { deals = put deal_key d db.deals })
tracked-KeepsKeys db old d found same = record {
  message = λ u.
      put-Unshared deal_key (λ d. d.source_message_id) d db.deals
        (kept-NoneElsewhere deal_key (λ d. d.source_message_id) d old db.deals u found same.message)
        u;
  fingerprint = λ u.
      put-Unshared deal_key (λ d. d.duplicate_fingerprint) d db.deals
        (kept-NoneElsewhere deal_key (λ d. d.duplicate_fingerprint) d old db.deals u found
          same.fingerprint)
        u;
}

-- What validate stores has keys that are not taken.
stored-KeepsKeys :
    {db : Db} {flags : Flags} {old : Option Deal} {d d' : Deal}
    → Validated db flags old d d'
    → KeepsKeys db (record db { deals = put deal_key d' db.deals })
unfolding compute_amount message_taken fingerprint_taken
stored-KeepsKeys {db} {flags} {old} v =
    let (m, f) = keys-pass db old v.before (Validated-Passed v).keys in
    subst (λ x. KeepsKeys db (record db { deals = put deal_key x db.deals })) v.stored
      (untaken-KeepsKeys db (compute_amount v.before) m f)

save-KeepsKeys :
    (flags : Flags) (d d' : Deal) (db db' : Db)
    → save_deal flags d db ≡ ok (d', db')
    → KeepsKeys db db'
save-KeepsKeys flags d d' db db' h =
    let (v, left) = save_deal-ok flags d d' db db' h in
    subst (KeepsKeys db) left (stored-KeepsKeys v)

pub save_deal-KeepsKeys : (flags : Flags) (d : Deal) → Relates KeepsKeys (save_deal flags d)
save_deal-KeepsKeys flags d = record { at = λ db. at db (save_deal flags d db) refl }
  where
    at : (db : Db) (r : Result (Deal × Db)) → save_deal flags d db ≡ r → Ends (KeepsKeys db) r
    at db (err e) h = tt
    at db (ok (d', db')) h = save-KeepsKeys flags d d' db db' h

save_write-KeepsKeys :
    (flags : Flags) (d : Deal) (f : Deal → Deal)
    → ((x : Deal) → SameTrack x (f x))
    → Relates KeepsKeys (save_deal flags d >>= λ saved. write_deal (f saved) >> pure (f saved))
save_write-KeepsKeys flags d f keeps = record { at = λ db. at db (save_deal flags d db) refl }
  where
    at :
        (db : Db) (r : Result (Deal × Db))
        → save_deal flags d db ≡ r
        → Ends (KeepsKeys db) (elim r [
          | ok (saved, db') ↦ (write_deal (f saved) >> pure (f saved)) db'
          | err e ↦ err e
        ])
    at db (err e) h = tt
    at db (ok (d', db')) h = KeepsKeys-trans db db' _ (save-KeepsKeys flags d d' db db' h) (
        tracked-KeepsKeys db' d' (f d')
          (subst (λ n. find deal_key n db'.deals ≡ some d') (sym (keeps d').name)
            (find-save_deal flags d d' db db' h))
          (keeps d'))

pub KeepsKeys-Closed : Closed KeepsKeys
KeepsKeys-Closed = record {
  same = KeepsKeys-refl;
  joined = KeepsKeys-trans;
  deal_saved = save_deal-KeepsKeys;
  deal_rewritten = save_write-KeepsKeys;
  exception_written = write_exception-KeepsKeys;
  approval_written = write_approval-KeepsKeys;
  name_given = fresh-KeepsKeys;
}

pub insert_deal-KeepsKeys :
    (fingerprint : Deal → ℕ) (d d' : Deal) (db db' : Db)
    → insert_deal fingerprint d db ≡ ok (d', db')
    → KeepsKeys db db'
insert_deal-KeepsKeys fingerprint d d' db db' h =
    let i = insert_deal-Inserted fingerprint d d' db db' h in
    let k = untaken-KeepsKeys db d' i.message i.fingerprint in
    subst (KeepsKeys db) (sym i.left) (record { message = k.message; fingerprint = k.fingerprint })

pub save_container-KeepsKeys :
    (companies : Ref → Bool) (reason : Bool) (c : Container)
    → Relates KeepsKeys (save_container companies reason c)
unfolding save_container
save_container-KeepsKeys companies reason c =
    search (closed_rules, write_container-KeepsKeys, KeepsKeys-Closed)

pub resolve_buyer_exceptions-KeepsKeys : (n : ℕ) → Relates KeepsKeys (resolve_buyer_exceptions n)
unfolding resolve_buyer_exceptions
resolve_buyer_exceptions-KeepsKeys n = record {
  at = λ db. record { message = λ u. u; fingerprint = λ u. u };
}
