-- ===== src/Lifecycle/Inserting.antt =====
-- The insert of a Deal among those that are there.
use fresko_universe.Data.{Deal}
use fresko_universe.Db.{deal_key, Db, ok}
use fresko_universe.DealDoc.{insert_deal}
use fresko_universe.DealDoc.Evolves.{put-Evolves, Evolves}
use fresko_universe.DealDoc.Inserted.{insert_deal-Inserted}
use fresko_universe.Prelude.{ℕ, ◌≡◌, sym, subst, none, some, arith, find}
use fresko_universe.Revisions.Kept.{KeepsApplied}

pub insert_deal-Evolves :
    (fingerprint : Deal → ℕ) (d d' : Deal) (db db' : Db)
    → find deal_key db.next_name db.deals ≡ none
    → insert_deal fingerprint d db ≡ ok (d', db')
    → Evolves db db'
insert_deal-Evolves fingerprint d d' db db' new h =
    let i = insert_deal-Inserted fingerprint d d' db db' h in
    let e =
      put-Evolves db d' λ old found.
        absurd (clash (subst (λ n. find deal_key n db.deals ≡ some old) i.name found)) in
    subst (Evolves db) (sym i.left) (record { names = e.names; moves = e.moves })
  where
    clash : {old : Deal} → find deal_key db.next_name db.deals ≡ some old → ⊥
    clash f = cc

pub insert_deal-KeepsApplied :
    (fingerprint : Deal → ℕ) (d d' : Deal) (db db' : Db)
    → insert_deal fingerprint d db ≡ ok (d', db')
    → KeepsApplied db db'
insert_deal-KeepsApplied fingerprint d d' db db' h =
    let i = insert_deal-Inserted fingerprint d d' db db' h in
    subst (KeepsApplied db) (sym i.left)
      (record { below = λ b n le. b n (omega (arith, le)); kept = λ b n r f a. f })
