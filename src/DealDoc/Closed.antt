-- ===== src/DealDoc/Closed.antt =====
-- What a relation between databases has to be closed under for every action of the Deals and of
-- the Approvals to relate what it found to what it left.
use fresko_universe.Data.{Deal, ExceptionDoc, Approval, Flags}
use fresko_universe.Db.{
  M, ◌>>=◌, ◌>>◌, pure, reads, write_deal, write_exception, write_approval, fresh, Db, Result,
}
use fresko_universe.Db.Relates.{Relates-bind, Relates-pure, Relates-reads, Relates-if, Relates}
use fresko_universe.DealDoc.{save_deal}
use fresko_universe.DealDoc.Evolves.{
  Evolves-refl, Evolves-trans, write_exception-Evolves, write_approval-Evolves, fresh-Evolves,
  save_deal-Evolves, save_write-Evolves, Evolves, SameTrack,
}
use fresko_universe.Prelude.{Bool, if◌then◌else◌}

-- What a relation between databases has to be closed under.
pub record Closed (R : Db → Db → Type 0) : Type 1 where
  pub same : (x : Db) → R x x
  pub joined : (x y z : Db) → R x y → R y z → R x z
  pub deal_saved : (flags : Flags) (d : Deal) → Relates R (save_deal flags d)
  pub deal_rewritten :
      (flags : Flags) (d : Deal) (f : Deal → Deal)
      → ((x : Deal) → SameTrack x (f x))
      → Relates R (save_deal flags d >>= λ saved. write_deal (f saved) >> pure (f saved))
  pub exception_written : (x : ExceptionDoc) → Relates R (write_exception x)
  pub approval_written : (a : Approval) → Relates R (write_approval a)
  pub name_given : Relates R fresh

module _ {R : Db → Db → Type 0} (c : Closed R) where
  pub bind_rule :
      {A B : Type 0} (m : M A) (f : A → M B)
      → Relates R m
      → ((a : A) → Relates R (f a))
      → Relates R (m >>= f)
  bind_rule m f h k = Relates-bind m f c.joined h k

  pub pure_rule : {A : Type 0} (a : A) → Relates R (pure a)
  pure_rule a = Relates-pure a c.same

  pub reads_rule : {A : Type 0} (f : Db → Result A) → Relates R (reads f)
  reads_rule f = Relates-reads f c.same

  pub if_rule :
      {A : Type 0} (b : Bool) (m n : M A)
      → Relates R m
      → Relates R n
      → Relates R (if b then m else n)
  if_rule b m n h k = Relates-if b m n h k

  pub deal_rule : (flags : Flags) (d : Deal) → Relates R (save_deal flags d)
  deal_rule = c.deal_saved

  pub rewritten_rule :
      (flags : Flags) (d : Deal) (f : Deal → Deal)
      → ((x : Deal) → SameTrack x (f x))
      → Relates R (save_deal flags d >>= λ saved. write_deal (f saved) >> pure (f saved))
  rewritten_rule = c.deal_rewritten

  pub exception_rule : (x : ExceptionDoc) → Relates R (write_exception x)
  exception_rule = c.exception_written

  pub approval_rule : (a : Approval) → Relates R (write_approval a)
  approval_rule = c.approval_written

  pub name_rule : Relates R fresh
  name_rule = c.name_given

pub ruleset closed_rules =
    (bind_rule, pure_rule, reads_rule, if_rule, deal_rule, exception_rule, approval_rule, name_rule)

-- What becomes of the Deals is such a relation.
pub Evolves-Closed : Closed Evolves
Evolves-Closed = record {
  same = Evolves-refl;
  joined = Evolves-trans;
  deal_saved = save_deal-Evolves;
  deal_rewritten = save_write-Evolves;
  exception_written = write_exception-Evolves;
  approval_written = write_approval-Evolves;
  name_given = fresh-Evolves;
}
