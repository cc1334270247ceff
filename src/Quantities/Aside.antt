-- ===== src/Quantities/Aside.antt =====
-- The operations on assertions write assertions and Exceptions, and no other table.
use fresko_universe.Data.{
  QuantityAssertion, ExceptionDoc, Session, Digests, ExceptionStatus, Review, VarianceDecision,
}
use fresko_universe.Db.{M, write_assertion, on_duplicate, Db}
use fresko_universe.Db.Relates.{Relates-on_duplicate, Relates}
use fresko_universe.Outwards.AfterPost.{
  answer_rule, insert_exception-Relates, save_exception-Relates, ExceptionClosed, exception_rules,
}
use fresko_universe.Prelude.{ℕ, ◌≡◌, refl, ◌∙◌, Bool, Option, none, some, Ref}
use fresko_universe.Quantities.{
  taken_variance, open_variance, ensure_variance_of, ensure_variance, ensure_physical_variance,
  decide_review, review_quantity_assertion, settle_variance, resolve_physical_variance, Pair,
  replay_found, replay_or_insert, create_quantity_assertion, locked_assertion,
  submit_quantity_assertion, supersede, activate_over, QuantityRequest, save_assertion,
  insert_assertion,
}

module _ {R : Db → Db → Type 0} (c : ExceptionClosed R) where
  pub duplicate_rule :
      {A : Type 0} (m k : M A) → Relates R m → Relates R k → Relates R (on_duplicate m k)
  duplicate_rule m k h j = Relates-on_duplicate m k h j

  open_variance-Relates :
      (g : Digests) (container : ℕ) (p : Pair) (x : Option ExceptionDoc)
      → Relates R (open_variance g container p x)
  unfolding open_variance taken_variance
  open_variance-Relates g container p (some x) = answer_rule c (some x.name)
  open_variance-Relates g container p none =
      search (exception_rules, duplicate_rule, insert_exception-Relates)

  ensure_variance_of-Relates :
      (g : Digests) (container : ℕ) (p : Option Pair) → Relates R (ensure_variance_of g container p)
  unfolding ensure_variance_of
  ensure_variance_of-Relates g container none = answer_rule c none
  ensure_variance_of-Relates g container (some p) = search (exception_rules, open_variance-Relates)

  -- A variance opens an Exception at most.
  pub ensure_variance-Relates :
      (g : Digests) (container : ℕ) → Relates R (ensure_variance g container)
  unfolding ensure_variance
  ensure_variance-Relates g container = search (exception_rules, ensure_variance_of-Relates)

-- Deals, Containers, Outwards, Approvals, Revisions and rates are as they were.
pub record Aside (db db' : Db) : Type 0 where
  pub deals : db'.deals ≡ db.deals
  pub containers : db'.containers ≡ db.containers
  pub outwards : db'.outwards ≡ db.outwards
  pub approvals : db'.approvals ≡ db.approvals
  pub revisions : db'.revisions ≡ db.revisions
  pub field_assertions : db'.field_assertions ≡ db.field_assertions

pub Aside-refl : (db : Db) → Aside db db
Aside-refl db = record {
  deals = refl;
  containers = refl;
  outwards = refl;
  approvals = refl;
  revisions = refl;
  field_assertions = refl;
}

pub Aside-trans : (x y z : Db) → Aside x y → Aside y z → Aside x z
Aside-trans x y z h k = record {
  deals = k.deals ∙ h.deals;
  containers = k.containers ∙ h.containers;
  outwards = k.outwards ∙ h.outwards;
  approvals = k.approvals ∙ h.approvals;
  revisions = k.revisions ∙ h.revisions;
  field_assertions = k.field_assertions ∙ h.field_assertions;
}

pub Aside-Closed : ExceptionClosed Aside
Aside-Closed = record {
  same = Aside-refl;
  joined = Aside-trans;
  exception_written = λ x. record {
    at = λ db. record {
      deals = refl;
      containers = refl;
      outwards = refl;
      approvals = refl;
      revisions = refl;
      field_assertions = refl;
    };
  };
  name_given = record {
    at = λ db. record {
      deals = refl;
      containers = refl;
      outwards = refl;
      approvals = refl;
      revisions = refl;
      field_assertions = refl;
    };
  };
}

write_assertion-Aside : (a : QuantityAssertion) → Relates Aside (write_assertion a)
write_assertion-Aside a = record {
  at = λ db. record {
    deals = refl;
    containers = refl;
    outwards = refl;
    approvals = refl;
    revisions = refl;
    field_assertions = refl;
  };
}

ruleset aside_rules = (exception_rules, duplicate_rule, Aside-Closed, write_assertion-Aside)

save_assertion-Aside :
    (s : Session) (now : ℕ) (service : Bool) (a : QuantityAssertion)
    → Relates Aside (save_assertion s now service a)
unfolding save_assertion
save_assertion-Aside s now service a = search aside_rules

insert_assertion-Aside :
    (s : Session) (service : Bool) (f : ℕ → QuantityAssertion)
    → Relates Aside (insert_assertion s service f)
unfolding insert_assertion
insert_assertion-Aside s service f = search aside_rules depth 14

replay_found-Aside :
    (s : Session) (payload : ℕ) (x : Option QuantityAssertion) (m : M QuantityAssertion)
    → Relates Aside m
    → Relates Aside (replay_found s payload x m)
unfolding replay_found
replay_found-Aside s payload (some a) m h = search aside_rules
replay_found-Aside s payload none m h = h

pub create_quantity_assertion-Aside :
    (g : Digests) (s : Session) (before : Db) (r : QuantityRequest)
    → Relates Aside (create_quantity_assertion g s before r)
unfolding create_quantity_assertion replay_or_insert
create_quantity_assertion-Aside g s before r =
    search (aside_rules, replay_found-Aside, insert_assertion-Aside) depth 14

pub submit_quantity_assertion-Aside :
    (s : Session) (before : Db) (n : ℕ) → Relates Aside (submit_quantity_assertion s before n)
unfolding submit_quantity_assertion locked_assertion
submit_quantity_assertion-Aside s before n = search (aside_rules, save_assertion-Aside) depth 14

supersede-Aside :
    (s : Session) (now : ℕ) (before : Db) (a prior : QuantityAssertion)
    → Relates Aside (supersede s now before a prior)
unfolding supersede
supersede-Aside s now before a prior = search (aside_rules, save_assertion-Aside)

activate_over-Aside :
    (s : Session) (now : ℕ) (before : Db) (a : QuantityAssertion) (r : Ref)
    → Relates Aside (activate_over s now before a r)
unfolding activate_over
activate_over-Aside s now before a none = search aside_rules
activate_over-Aside s now before a (some n) = search (aside_rules, supersede-Aside)

decide_review-Aside :
    (g : Digests) (s : Session) (now : ℕ) (before : Db) (decision : Review) (a : QuantityAssertion)
    → Relates Aside (decide_review g s now before decision a)
unfolding decide_review
decide_review-Aside g s now before Review.activate a =
    search (aside_rules, activate_over-Aside, save_assertion-Aside, ensure_variance-Relates)
decide_review-Aside g s now before Review.reject a = search (aside_rules, save_assertion-Aside)
decide_review-Aside g s now before Review.invalid a = search aside_rules

pub review_quantity_assertion-Aside :
    (g : Digests) (s : Session) (now : ℕ) (before : Db) (n : ℕ) (decision : Review)
    → Relates Aside (review_quantity_assertion g s now before n decision)
unfolding review_quantity_assertion locked_assertion
review_quantity_assertion-Aside g s now before n decision =
    search (aside_rules, decide_review-Aside) depth 14

module _ {R : Db → Db → Type 0} (c : ExceptionClosed R) where
  pub ensure_physical_variance-Relates :
      (g : Digests) (s : Session) (n : ℕ) → Relates R (ensure_physical_variance g s n)
  unfolding ensure_physical_variance
  ensure_physical_variance-Relates g s n = search (exception_rules, ensure_variance-Relates)

  settle_variance-Relates :
      (status : ExceptionStatus) (x : ExceptionDoc) → Relates R (settle_variance status x)
  unfolding settle_variance
  settle_variance-Relates status x = search (exception_rules, save_exception-Relates) depth 14

  pub resolve_physical_variance-Relates :
      (s : Session) (before : Db) (n : ℕ) (d : VarianceDecision) (notes : Ref)
      → Relates R (resolve_physical_variance s before n d notes)
  unfolding resolve_physical_variance
  resolve_physical_variance-Relates s before n d notes =
      search (exception_rules, settle_variance-Relates) depth 14
