-- ===== src/Db/Frame.antt =====
-- Actions that write other tables than those of the Deals, the Containers and their assertions.
use fresko_universe.Data.{ExceptionDoc, Approval}
use fresko_universe.Db.{
  M, ◌>>=◌, pure, reads, write_exception, write_approval, fresh, Db, Result, ok,
}
use fresko_universe.Db.Relates.{
  Ends, Relates-bind, Relates-pure, Relates-reads, Relates-if, Relates,
}
use fresko_universe.Prelude.{◌≡◌, refl, ◌∙◌, subst, Bool, if◌then◌else◌}

-- The tables that what is available and what is posted are read from are as they were.
pub record SameStock (db db' : Db) : Type 0 where
  pub deals : db'.deals ≡ db.deals
  pub containers : db'.containers ≡ db.containers
  pub assertions : db'.assertions ≡ db.assertions
  pub outwards : db'.outwards ≡ db.outwards
  pub field_assertions : db'.field_assertions ≡ db.field_assertions
  pub evidences : db'.evidences ≡ db.evidences

pub SameStock-refl : (db : Db) → SameStock db db
SameStock-refl db = record {
  deals = refl;
  containers = refl;
  assertions = refl;
  outwards = refl;
  field_assertions = refl;
  evidences = refl;
}

pub SameStock-trans : (x y z : Db) → SameStock x y → SameStock y z → SameStock x z
SameStock-trans x y z h k = record {
  deals = k.deals ∙ h.deals;
  containers = k.containers ∙ h.containers;
  assertions = k.assertions ∙ h.assertions;
  outwards = k.outwards ∙ h.outwards;
  field_assertions = k.field_assertions ∙ h.field_assertions;
  evidences = k.evidences ∙ h.evidences;
}

module _ {A B : Type 0} where
  pub SameStock-bind :
      (m : M A) (f : A → M B)
      → Relates SameStock m
      → ((a : A) → Relates SameStock (f a))
      → Relates SameStock (m >>= f)
  SameStock-bind m f h k = Relates-bind m f SameStock-trans h k

module _ {A : Type 0} where
  pub SameStock-pure : (a : A) → Relates SameStock (pure a)
  SameStock-pure a = Relates-pure a SameStock-refl

  pub SameStock-reads : (f : Db → Result A) → Relates SameStock (reads f)
  SameStock-reads f = Relates-reads f SameStock-refl

  pub SameStock-if :
      (b : Bool) (m n : M A)
      → Relates SameStock m
      → Relates SameStock n
      → Relates SameStock (if b then m else n)
  SameStock-if b m n h k = Relates-if b m n h k

pub write_exception-SameStock : (x : ExceptionDoc) → Relates SameStock (write_exception x)
write_exception-SameStock x = record {
  at = λ db. record {
    deals = refl;
    containers = refl;
    assertions = refl;
    outwards = refl;
    field_assertions = refl;
    evidences = refl;
  };
}

pub write_approval-SameStock : (a : Approval) → Relates SameStock (write_approval a)
write_approval-SameStock a = record {
  at = λ db. record {
    deals = refl;
    containers = refl;
    assertions = refl;
    outwards = refl;
    field_assertions = refl;
    evidences = refl;
  };
}

pub fresh-SameStock : Relates SameStock fresh
fresh-SameStock = record {
  at = λ db. record {
    deals = refl;
    containers = refl;
    assertions = refl;
    outwards = refl;
    field_assertions = refl;
    evidences = refl;
  };
}

pub ruleset stock_rules = (
  SameStock-bind, SameStock-pure, SameStock-reads, SameStock-if, write_exception-SameStock,
  write_approval-SameStock, fresh-SameStock,
)

-- The relation, of a run that ended well.
pub ended :
    {A : Type 0} {R : Db → Db → Type 0} (m : M A) (db db' : Db) (a : A)
    → Relates R m
    → m db ≡ ok (a, db')
    → R db db'
ended {R = R} m db db' a h e = subst (Ends (R db)) e (h.at db)
