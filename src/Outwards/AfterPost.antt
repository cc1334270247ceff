-- ===== src/Outwards/AfterPost.antt =====
-- What follows a post keeps any relation that a write of an Exception and a new name keep.
use fresko_universe.Data.{
  Outward, ExceptionDoc, ExceptionFlags, Severity, ExceptionStatus, ExceptionType,
}
use fresko_universe.Db.{M, ◌>>=◌, ◌>>◌, pure, reads, write_exception, fresh, Db, Result, ok}
use fresko_universe.Db.Frame.{
  SameStock-refl, SameStock-trans, write_exception-SameStock, fresh-SameStock, SameStock,
}
use fresko_universe.Db.Relates.{Relates-bind, Relates-pure, Relates-reads, Relates-if, Relates}
use fresko_universe.ExceptionRules.{outward_service, save_exception, insert_exception}
use fresko_universe.Outwards.{
  open_unless, ensure_outward_exception, ensure_if, has_duplicate, open_duplicates,
  ensure_duplicate_gatepass_exceptions, resolve_each, resolve_reversed_outward_exceptions,
  after_post,
}
use fresko_universe.Prelude.{
  ℕ, Bool, true, false, Option, none, some, List, [], ◌∷◌, if◌then◌else◌, Ref,
}

-- The relation is closed under the steps of the ledger's Exceptions.
pub record ExceptionClosed (R : Db → Db → Type 0) : Type 1 where
  pub same : (x : Db) → R x x
  pub joined : (x y z : Db) → R x y → R y z → R x z
  pub exception_written : (x : ExceptionDoc) → Relates R (write_exception x)
  pub name_given : Relates R fresh

module _ {R : Db → Db → Type 0} (c : ExceptionClosed R) where
  pub then_rule :
      {A B : Type 0} (m : M A) (f : A → M B)
      → Relates R m
      → ((a : A) → Relates R (f a))
      → Relates R (m >>= f)
  then_rule m f h k = Relates-bind m f c.joined h k

  pub answer_rule : {A : Type 0} (a : A) → Relates R (pure a)
  answer_rule a = Relates-pure a c.same

  pub query_rule : {A : Type 0} (f : Db → Result A) → Relates R (reads f)
  query_rule f = Relates-reads f c.same

  pub branch_rule :
      {A : Type 0} (b : Bool) (m n : M A)
      → Relates R m
      → Relates R n
      → Relates R (if b then m else n)
  branch_rule b m n h k = Relates-if b m n h k

  pub write_rule : (x : ExceptionDoc) → Relates R (write_exception x)
  write_rule = c.exception_written

  pub fresh_rule : Relates R fresh
  fresh_rule = c.name_given

pub ruleset exception_rules =
    (then_rule, answer_rule, query_rule, branch_rule, write_rule, fresh_rule)

module _ {R : Db → Db → Type 0} (c : ExceptionClosed R) where
  pub insert_exception-Relates :
      (flags : ExceptionFlags) (f : ℕ → ExceptionDoc) → Relates R (insert_exception flags f)
  unfolding insert_exception
  insert_exception-Relates flags f = search exception_rules

  pub save_exception-Relates :
      (flags : ExceptionFlags) (x : ExceptionDoc) → Relates R (save_exception flags x)
  unfolding save_exception
  save_exception-Relates flags x = search exception_rules

  open_unless-Relates :
      (b : Bool) (o : Outward) (kind : ExceptionType) (severity : Severity) (related : Ref)
      → Relates R (open_unless b o kind severity related)
  unfolding open_unless
  open_unless-Relates true o kind severity related = answer_rule c tt
  open_unless-Relates false o kind severity related =
      search (exception_rules, insert_exception-Relates)

  ensure_outward_exception-Relates :
      (o : Outward) (kind : ExceptionType) → Relates R (ensure_outward_exception o kind)
  unfolding ensure_outward_exception
  ensure_outward_exception-Relates o kind = search (exception_rules, open_unless-Relates)

  ensure_if-Relates :
      (b : Bool) (o : Outward) (kind : ExceptionType) → Relates R (ensure_if b o kind)
  unfolding ensure_if
  ensure_if-Relates true o kind = ensure_outward_exception-Relates o kind
  ensure_if-Relates false o kind = answer_rule c tt

  open_duplicates-Relates : (o : Outward) (xs : List Outward) → Relates R (open_duplicates o xs)
  unfolding open_duplicates
  open_duplicates-Relates o [] = answer_rule c tt
  open_duplicates-Relates o (x ∷ xs) =
      then_rule c (reads λ db. ok (has_duplicate o.name x.name db))
        (λ found.
          open_unless found o ExceptionType.duplicate_gatepass Severity.material (some x.name)
          >> open_duplicates o xs)
        (query_rule c λ db. ok (has_duplicate o.name x.name db))
        λ found.
          then_rule c
            (open_unless found o ExceptionType.duplicate_gatepass Severity.material (some x.name))
            (λ _. open_duplicates o xs)
            (open_unless-Relates found o ExceptionType.duplicate_gatepass Severity.material
              (some x.name))
            λ _. open_duplicates-Relates o xs

  pub resolve_each-Relates : (xs : List ExceptionDoc) → Relates R (resolve_each xs)
  unfolding resolve_each
  resolve_each-Relates [] = answer_rule c tt
  resolve_each-Relates (x ∷ xs) =
      then_rule c (save_exception outward_service (record x { status = ExceptionStatus.resolved }))
        (λ _. resolve_each xs)
        (save_exception-Relates outward_service (record x { status = ExceptionStatus.resolved }))
        λ _. resolve_each-Relates xs

  pub after_post-Relates : (o : Outward) (x : Option Outward) → Relates R (after_post o x)
  unfolding after_post resolve_reversed_outward_exceptions ensure_duplicate_gatepass_exceptions
  after_post-Relates o (some x) = search (exception_rules, resolve_each-Relates)
  after_post-Relates o none = search (
    exception_rules, ensure_outward_exception-Relates, ensure_if-Relates, open_duplicates-Relates,
  )

-- The tables of the stock are such.
pub SameStock-Closed : ExceptionClosed SameStock
SameStock-Closed = record {
  same = SameStock-refl;
  joined = SameStock-trans;
  exception_written = write_exception-SameStock;
  name_given = fresh-SameStock;
}
