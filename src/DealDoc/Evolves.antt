-- ===== src/DealDoc/Evolves.antt =====
-- How the statuses of the Deals in the table move under an action.
use fresko_universe.Data.{Deal, Container, ExceptionDoc, Approval, Revision, Flags}
use fresko_universe.Db.{
  M, ◌>>=◌, ◌>>◌, pure, reads, deal_key, write_deal, write_exception, write_approval,
  write_revision, write_container, fresh, Db, Result, ok, err,
}
use fresko_universe.Db.Relates.{
  Ends, Relates-bind, Relates-pure, Relates-reads, Relates-if, Relates,
}
use fresko_universe.DealDoc.{save_deal}
use fresko_universe.DealDoc.Frozen.{save_deal-SaveKeeps, SaveKeeps}
use fresko_universe.DealDoc.Passed.{Validated-SameCore, save_deal-ok}
use fresko_universe.Policy.StatusPath.{StatusPath-trans, StatusPath, stay, move}
use fresko_universe.Prelude.{
  ℕ, ◌≡◌, refl, ◌∙◌, subst, inl, inr, Bool, Option, none, some, ◌==◌, if◌then◌else◌, ==-eq, ==-refl,
  Bool-cases, Option-cases, find, put, NamesDiffer, find-put, put-NamesDiffer,
}
use fresko_universe.Prelude.Int.{◌≤ℤ◌, pos}

-- The dispatched quantity is between zero and the quantity of the Deal.
abbrev pub InBounds : Deal → Type 0
InBounds d = (pos 0 ≤ℤ d.dispatched_qty) × (d.dispatched_qty ≤ℤ d.qty)

-- What becomes of a Deal: its status has moved along DEAL_TRANSITIONS, its buyer alias is what it
-- was, and its dispatched quantity has not left its bounds.
pub record Moved (a b : Deal) : Type 0 where
  pub path : StatusPath a.status b.status
  pub alias : b.buyer_alias ≡ a.buyer_alias
  pub bounds : InBounds a → InBounds b

abbrev pub DealMoves : Option Deal → Option Deal → Type 0
DealMoves none _ = Unit {0}
DealMoves (some a) none = ⊥
DealMoves (some a) (some b) = Moved a b

-- Every Deal that was there is still there, and has moved; and names stay distinct.
pub record Evolves (db db' : Db) : Type 0 where
  pub names : NamesDiffer deal_key db.deals → NamesDiffer deal_key db'.deals
  pub moves : (n : ℕ) → DealMoves (find deal_key n db.deals) (find deal_key n db'.deals)

Moved-refl : (a : Deal) → Moved a a
Moved-refl a = record { path = stay; alias = refl; bounds = λ h. h }

Moved-trans : (a b c : Deal) → Moved a b → Moved b c → Moved a c
Moved-trans a b c h k = record {
  path = StatusPath-trans h.path k.path;
  alias = k.alias ∙ h.alias;
  bounds = λ e. k.bounds (h.bounds e);
}

moves_refl : (o : Option Deal) → DealMoves o o
moves_refl none = tt
moves_refl (some a) = Moved-refl a

moves_trans : (o p q : Option Deal) → DealMoves o p → DealMoves p q → DealMoves o q
moves_trans none p q h k = tt
moves_trans (some a) none q h k = absurd h
moves_trans (some a) (some b) none h k = absurd k
moves_trans (some a) (some b) (some c) h k = Moved-trans a b c h k

pub Evolves-refl : (db : Db) → Evolves db db
Evolves-refl db = record { names = λ h. h; moves = λ n. moves_refl (find deal_key n db.deals) }

pub Evolves-trans : (x y z : Db) → Evolves x y → Evolves y z → Evolves x z
Evolves-trans x y z h k = record {
  names = λ e. k.names (h.names e);
  moves = λ n.
      moves_trans (find deal_key n x.deals) (find deal_key n y.deals) (find deal_key n z.deals)
        (h.moves n) (k.moves n);
}

module _ {A B : Type 0} where
  pub Evolves-bind :
      (m : M A) (f : A → M B)
      → Relates Evolves m
      → ((a : A) → Relates Evolves (f a))
      → Relates Evolves (m >>= f)
  Evolves-bind m f h k = Relates-bind m f Evolves-trans h k

module _ {A : Type 0} where
  pub Evolves-pure : (a : A) → Relates Evolves (pure a)
  Evolves-pure a = Relates-pure a Evolves-refl

  pub Evolves-reads : (f : Db → Result A) → Relates Evolves (reads f)
  Evolves-reads f = Relates-reads f Evolves-refl

  pub Evolves-if :
      (b : Bool) (m n : M A)
      → Relates Evolves m
      → Relates Evolves n
      → Relates Evolves (if b then m else n)
  Evolves-if b m n h k = Relates-if b m n h k

-- The tables of other documents can be written freely.
pub write_exception-Evolves : (x : ExceptionDoc) → Relates Evolves (write_exception x)
write_exception-Evolves x = record {
  at = λ db. record { names = λ h. h; moves = (Evolves-refl db).moves };
}

pub write_approval-Evolves : (a : Approval) → Relates Evolves (write_approval a)
write_approval-Evolves a = record {
  at = λ db. record { names = λ h. h; moves = (Evolves-refl db).moves };
}

pub write_revision-Evolves : (r : Revision) → Relates Evolves (write_revision r)
write_revision-Evolves r = record {
  at = λ db. record { names = λ h. h; moves = (Evolves-refl db).moves };
}

pub write_container-Evolves : (c : Container) → Relates Evolves (write_container c)
write_container-Evolves c = record {
  at = λ db. record { names = λ h. h; moves = (Evolves-refl db).moves };
}

pub fresh-Evolves : Relates Evolves fresh
fresh-Evolves = record { at = λ db. record { names = λ h. h; moves = (Evolves-refl db).moves } }

-- Writing a Deal that has moved from the stored one.
pub put-Evolves :
    (db : Db) (d' : Deal)
    → ((old : Deal) → find deal_key d'.name db.deals ≡ some old → Moved old d')
    → Evolves db (record db { deals = put deal_key d' db.deals })
put-Evolves db d' h = record {
  names = put-NamesDiffer deal_key d' db.deals;
  moves = λ n. rw find-put (at n);
}
  where
    at :
        (n : ℕ)
        → DealMoves
            (find deal_key n db.deals)
            (if d'.name == n then some d' else find deal_key n db.deals)
    at n = elim (Bool-cases (d'.name == n)) [
      | inr e ↦ rw e (moves_refl (find deal_key n db.deals))
      | inl e ↦ rw e (elim (Option-cases (find deal_key n db.deals)) [
        | inl absent ↦ rw absent tt
        | inr (old, found) ↦ rw found (h old (rw (==-eq d'.name n e) found))
      ])
    ]

path_of_save :
    {flags : Flags} {old d' : Deal} → SaveKeeps flags old d' → StatusPath old.status d'.status
path_of_save {flags} {old} {d'} k = elim k.status [
  | inl e ↦ subst (StatusPath old.status) e stay
  | inr (_, m) ↦ move stay m
]

save-Moved : {flags : Flags} {old d' : Deal} → SaveKeeps flags old d' → Moved old d'
save-Moved k = record {
  path = path_of_save k;
  alias = k.buyer_alias;
  bounds = λ h. (k.nonneg, k.bounded);
}

save-Evolves :
    (flags : Flags) (d d' : Deal) (db db' : Db)
    → save_deal flags d db ≡ ok (d', db')
    → Evolves db db'
save-Evolves flags d d' db db' h =
    let (v, left) = save_deal-ok flags d d' db db' h in
    let same = Validated-SameCore v in
    subst (Evolves db) left (
      put-Evolves db d' λ old found. save-Moved (
        save_deal-SaveKeeps flags old d d' db db'
          (subst (λ n. find deal_key n db.deals ≡ some old) same.name found) h))

-- After a save the table holds the Deal that the save returned.
pub find-save_deal :
    (flags : Flags) (d d' : Deal) (db db' : Db)
    → save_deal flags d db ≡ ok (d', db')
    → find deal_key d'.name db'.deals ≡ some d'
find-save_deal flags d d' db db' h =
    subst (λ (x : Db). find deal_key d'.name x.deals ≡ some d') (save_deal-ok flags d d' db db' h).1
      (rw find-put (rw ==-refl refl))

pub save_deal-Evolves : (flags : Flags) (d : Deal) → Relates Evolves (save_deal flags d)
save_deal-Evolves flags d = record { at = λ db. at db (save_deal flags d db) refl }
  where
    at : (db : Db) (r : Result (Deal × Db)) → save_deal flags d db ≡ r → Ends (Evolves db) r
    at db (err e) h = tt
    at db (ok (d', db')) h = save-Evolves flags d d' db db' h

-- The fields that the relations over runs are about.
pub record SameTrack (a b : Deal) : Type 0 where
  pub message : b.source_message_id ≡ a.source_message_id
  pub fingerprint : b.duplicate_fingerprint ≡ a.duplicate_fingerprint
  pub name : b.name ≡ a.name
  pub status : b.status ≡ a.status
  pub alias : b.buyer_alias ≡ a.buyer_alias
  pub qty : b.qty ≡ a.qty
  pub dispatched : b.dispatched_qty ≡ a.dispatched_qty

SameTrack-Moved : (a b : Deal) → SameTrack a b → Moved a b
SameTrack-Moved a b h = record {
  path = rw h.status stay;
  alias = h.alias;
  bounds = λ (l, u). (rw h.dispatched l, rw h.dispatched (rw h.qty u));
}

-- A save, and then a write that keeps those fields.
pub save_write-Evolves :
    (flags : Flags) (d : Deal) (f : Deal → Deal)
    → ((x : Deal) → SameTrack x (f x))
    → Relates Evolves (save_deal flags d >>= λ saved. write_deal (f saved) >> pure (f saved))
save_write-Evolves flags d f keeps = record { at = λ db. at db (save_deal flags d db) refl }
  where
    at :
        (db : Db) (r : Result (Deal × Db))
        → save_deal flags d db ≡ r
        → Ends (Evolves db) (elim r [
          | ok (saved, db') ↦ (write_deal (f saved) >> pure (f saved)) db'
          | err e ↦ err e
        ])
    at db (err e) h = tt
    at db (ok (d', db')) h = Evolves-trans db db' _ (save-Evolves flags d d' db db' h) (
        put-Evolves db' (f d') λ old found.
          let same : d' ≡ old =
            (let a = find-save_deal flags d d' db db' h in
              let b = subst (λ n. find deal_key n db'.deals ≡ some old) (keeps d').name found in
              cc) in
          subst (λ (x : Deal). Moved x (f d')) same (SameTrack-Moved d' (f d') (keeps d')))

pub ruleset evolve_rules = (
  Evolves-bind, Evolves-pure, Evolves-reads, Evolves-if, write_exception-Evolves,
  write_approval-Evolves, write_revision-Evolves, fresh-Evolves, save_deal-Evolves,
)
