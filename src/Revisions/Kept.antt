-- ===== src/Revisions/Kept.antt =====
-- An applied Revision, and what every action does with it.
use fresko_universe.ContainerDoc.{save_container}
use fresko_universe.Data.{Deal, Container, ExceptionDoc, Approval, Revision, Flags, RevisionStatus}
use fresko_universe.Db.{
  M, ◌>>=◌, pure, reads, revision_key, write_deal, write_exception, write_approval, write_container,
  fresh, Db, Result, ok, err,
}
use fresko_universe.Db.Relates.{Ends, Relates-bind, Relates-pure, Relates-reads, Relates}
use fresko_universe.DealDoc.{save_deal}
use fresko_universe.DealDoc.Closed.{Closed}
use fresko_universe.DealDoc.Passed.{save_deal-ok}
use fresko_universe.Exceptions.{resolve_buyer_exceptions}
use fresko_universe.Prelude.{
  ℕ, ◌+◌, ◌≤◌, ◌≡◌, refl, ap, ◌∙◌, subst, inl, inr, Bool, none, some, arith, ◌==◌, Ref, ==-eq,
  Bool-cases, find, put, find-put,
}
use fresko_universe.Revisions.{save_revision}
use fresko_universe.Revisions.History.{save_revision-ok, save_revision-frozen}

-- No Revision has a name that is still to be given.
abbrev pub RevisionsBelow : Db → Type 0
RevisionsBelow db = (n : ℕ) → db.next_name ≤ n → find revision_key n db.revisions ≡ none

-- Where no name is still to be given, that stays so, and every Revision that is stored as Applied
-- stays stored as it is.
pub record KeepsApplied (db db' : Db) : Type 0 where
  pub below : RevisionsBelow db → RevisionsBelow db'
  pub kept :
      RevisionsBelow db
      → (n : ℕ) (r : Revision) → find revision_key n db.revisions ≡ some r
      → r.status ≡ RevisionStatus.applied
      → find revision_key n db'.revisions ≡ some r

pub KeepsApplied-refl : (db : Db) → KeepsApplied db db
KeepsApplied-refl db = record { below = λ h. h; kept = λ b n r f a. f }

pub KeepsApplied-trans : (x y z : Db) → KeepsApplied x y → KeepsApplied y z → KeepsApplied x z
KeepsApplied-trans x y z h k = record {
  below = λ b. k.below (h.below b);
  kept = λ b n r f a. k.kept (h.below b) n r (h.kept b n r f a) a;
}

module _ {A B : Type 0} where
  pub KeepsApplied-bind :
      (m : M A) (f : A → M B)
      → Relates KeepsApplied m
      → ((a : A) → Relates KeepsApplied (f a))
      → Relates KeepsApplied (m >>= f)
  KeepsApplied-bind m f h k = Relates-bind m f KeepsApplied-trans h k

module _ {A : Type 0} where
  pub KeepsApplied-pure : (a : A) → Relates KeepsApplied (pure a)
  KeepsApplied-pure a = Relates-pure a KeepsApplied-refl

  pub KeepsApplied-reads : (f : Db → Result A) → Relates KeepsApplied (reads f)
  KeepsApplied-reads f = Relates-reads f KeepsApplied-refl

-- The tables of other documents can be written freely.
pub write_exception-KeepsApplied : (x : ExceptionDoc) → Relates KeepsApplied (write_exception x)
write_exception-KeepsApplied x = record {
  at = λ db. record { below = λ h. h; kept = λ b n r f a. f };
}

pub write_approval-KeepsApplied : (x : Approval) → Relates KeepsApplied (write_approval x)
write_approval-KeepsApplied x = record {
  at = λ db. record { below = λ h. h; kept = λ b n r f a. f };
}

pub write_deal-KeepsApplied : (x : Deal) → Relates KeepsApplied (write_deal x)
write_deal-KeepsApplied x = record { at = λ db. record { below = λ h. h; kept = λ b n r f a. f } }

pub write_container-KeepsApplied : (x : Container) → Relates KeepsApplied (write_container x)
write_container-KeepsApplied x = record {
  at = λ db. record { below = λ h. h; kept = λ b n r f a. f };
}

later : (m n : ℕ) → m + 1 ≤ n → m ≤ n
later m n h = omega (arith, h)

pub fresh-KeepsApplied : Relates KeepsApplied fresh
fresh-KeepsApplied = record {
  at = λ db. record { below = λ h n le. h n (later db.next_name n le); kept = λ b n r f a. f };
}

pub save_deal-KeepsApplied : (flags : Flags) (d : Deal) → Relates KeepsApplied (save_deal flags d)
save_deal-KeepsApplied flags d = record { at = λ db. at db (save_deal flags d db) refl }
  where
    at : (db : Db) (r : Result (Deal × Db)) → save_deal flags d db ≡ r → Ends (KeepsApplied db) r
    at db (err e) h = tt
    at db (ok (d', db')) h =
        subst (KeepsApplied db) (save_deal-ok flags d d' db db' h).1
          (record { below = λ h. h; kept = λ b n r f a. f })

-- Writing a Revision that is stored, and as it is if it is applied.
pub put-KeepsApplied :
    (db : Db) (old r : Revision)
    → find revision_key r.name db.revisions ≡ some old
    → (old.status ≡ RevisionStatus.applied → r ≡ old)
    → KeepsApplied db (record db { revisions = put revision_key r db.revisions })
put-KeepsApplied db old r f same = record {
  below = λ b n le. rw find-put (elim (Bool-cases (r.name == n)) [
    | inr e ↦ rw e (b n le)
    | inl e ↦
        let g = b n le in
        let k = subst (λ m. find revision_key m db.revisions ≡ some old) (==-eq r.name n e) f in
        absurd (cc)
  ]);
  kept = λ b n x g a. rw find-put (elim (Bool-cases (r.name == n)) [
    | inr e ↦ rw e g
    | inl e ↦
        let k = subst (λ m. find revision_key m db.revisions ≡ some old) (==-eq r.name n e) f in
        let p : old ≡ x = cc in rw e (ap some (same (ap (λ (y : Revision). y.status) p ∙ a) ∙ p))
  ]);
}

pub save_revision-KeepsApplied :
    (allow : Bool) (r : Revision) → Relates KeepsApplied (save_revision allow r)
save_revision-KeepsApplied allow r = record { at = λ db. at db (save_revision allow r db) refl }
  where
    at :
        (db : Db) (x : Result (Unit {0} × Db))
        → save_revision allow r db ≡ x
        → Ends (KeepsApplied db) x
    at db (err e) h = tt
    at db (ok (u, db')) h =
        let (old, found, passed, left) = save_revision-ok allow r db db' h in
        subst (KeepsApplied db) left
          (put-KeepsApplied db old r found (λ a. save_revision-frozen allow old r db db' found a h))

pub resolve_buyer_exceptions-KeepsApplied :
    (n : ℕ) → Relates KeepsApplied (resolve_buyer_exceptions n)
unfolding resolve_buyer_exceptions
resolve_buyer_exceptions-KeepsApplied n = record {
  at = λ db. record { below = λ h. h; kept = λ b n r f a. f };
}

ruleset applied_rules = (
  KeepsApplied-bind, KeepsApplied-pure, KeepsApplied-reads, write_deal-KeepsApplied,
  save_deal-KeepsApplied,
)

pub KeepsApplied-Closed : Closed KeepsApplied
KeepsApplied-Closed = record {
  same = KeepsApplied-refl;
  joined = KeepsApplied-trans;
  deal_saved = save_deal-KeepsApplied;
  deal_rewritten = λ flags d f h. search applied_rules;
  exception_written = write_exception-KeepsApplied;
  approval_written = write_approval-KeepsApplied;
  name_given = fresh-KeepsApplied;
}

pub save_container-KeepsApplied :
    (companies : Ref → Bool) (reason : Bool) (c : Container)
    → Relates KeepsApplied (save_container companies reason c)
unfolding save_container
save_container-KeepsApplied companies reason c =
    search (applied_rules, write_container-KeepsApplied)
