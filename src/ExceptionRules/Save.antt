-- ===== src/ExceptionRules/Save.antt =====
-- The save, the insert and the deletion of an Exception.
use fresko_universe.Data.{ExceptionDoc, ExceptionFlags}
use fresko_universe.Db.{
  throw_if, M, ◌>>=◌, ◌>>◌, pure, reads, check, modify, exception_key, get_exception,
  write_exception, fresh, Db, Error,
}
use fresko_universe.ExceptionRules.Scope.{validate_exception, trash_exception}
use fresko_universe.Prelude.{
  ℕ, Bool, true, false, ◌&&◌, not, none, ◌==◌, Ref, is_set, ◌=?◌, any, keep, find,
}

-- A save from the Desk, or from a method that enters no service.
abbrev pub no_service : ExceptionFlags
no_service = record {
  in_outward_service = false;
  in_quantity_service = false;
  in_commercial = false;
  in_money = false;
}

abbrev pub outward_service : ExceptionFlags
outward_service = record no_service { in_outward_service = true }

abbrev pub quantity_service : ExceptionFlags
quantity_service = record no_service { in_quantity_service = true }

-- `exception.save()`: the stored row of its name is the one before
unfoldable pub save_exception : ExceptionFlags → ExceptionDoc → M (Unit {0})
unfolding validate_exception find
save_exception flags x = do
  reads λ db. validate_exception flags (find exception_key x.name db.exceptions) x db
  write_exception x

-- Another Exception has the variance key, which is unique.
unfoldable pub variance_taken : Ref → Db → Bool
unfolding any
variance_taken key db = is_set key && any (λ x. x.variance_key =? key) db.exceptions

-- `exception.insert()`, under the name `n`
unfoldable pub insert_exception : ExceptionFlags → (ℕ → ExceptionDoc) → M ExceptionDoc
unfolding validate_exception variance_taken
insert_exception flags f = do
  n ← fresh
  reads λ db. validate_exception flags none (f n) db
  reads λ db. throw_if (variance_taken (f n).variance_key db) Error.unique_violation
  write_exception (f n)
  pure (f n)

-- `frappe.delete_doc`
unfoldable pub delete_exception : ℕ → M (Unit {0})
unfolding trash_exception keep
delete_exception n = do
  x ← reads (get_exception n)
  check (trash_exception x)
  modify λ db. record db { exceptions = keep (λ y. not (y.name == n)) db.exceptions }
