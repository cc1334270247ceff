-- ===== src/Db/State.antt =====
-- The tables, and the actions over them.
use fresko_universe.Data.{
  Deal, Container, QuantityAssertion, Outward, FieldAssertion, Evidence, ExceptionDoc,
  PaymentAllocation, Collection, Approval, Revision,
}
use fresko_universe.Db.Errors.{Error}
use fresko_universe.Prelude.{
  ℕ, ◌+◌, Bool, true, false, Option, none, some, List, if◌then◌else◌, find, put,
}

-- The rows of a table stand in the order in which the code's queries return them. `next_name` is
-- the name that the next inserted document gets.
pub record Db : Type 0 where
  pub deals : List Deal
  pub containers : List Container
  pub assertions : List QuantityAssertion
  pub field_assertions : List FieldAssertion
  pub evidences : List Evidence
  pub outwards : List Outward
  pub exceptions : List ExceptionDoc
  pub approvals : List Approval
  pub revisions : List Revision
  pub allocations : List PaymentAllocation
  pub collections : List Collection
  pub next_name : ℕ

pub data Result {ℓ} (A : Type ℓ) : Type ℓ where
  ok : A → Result A
  err : Error → Result A

-- A check that may throw.
abbrev pub Check : Type 0
Check = Result (Unit {0})

abbrev pub pass : Check
pass = ok tt

-- `if test: frappe.throw(e)`
abbrev pub throw_if : Bool → Error → Check
throw_if true e = err e
throw_if false e = pass

infixl 5 ◌then_check◌
-- The checks one after the other: the first to throw ends them.
abbrev pub ◌then_check◌ : Check → Check → Check
ok _ then_check c = c
err e then_check c = err e

abbrev pub or_throw : {A : Type 0} → Option A → Error → Result A
or_throw none e = err e
or_throw (some a) e = ok a

abbrev pub M : Type 0 → Type 0
M A = Db → Result (A × Db)

infixl 5 ◌>>=◌ ◌>>◌
abbrev pub ◌>>=◌ : {A B : Type 0} → M A → (A → M B) → M B
◌>>=◌ m f db = elim (m db) [ ok (a, db') ↦ f a db' | err e ↦ err e ]

abbrev pub ◌>>◌ : {A B : Type 0} → M A → M B → M B
m >> k = m >>= λ _. k

abbrev pub pure : {A : Type 0} → A → M A
pure a db = ok (a, db)

-- What a query or a check answers, with the database as it is.
abbrev pub reads : {A : Type 0} → (Db → Result A) → M A
reads f db = elim (f db) [ ok a ↦ ok (a, db) | err e ↦ err e ]

abbrev pub check : Check → M (Unit {0})
check c = reads λ _. c

abbrev pub modify : (Db → Db) → M (Unit {0})
modify f db = ok (tt, f db)

abbrev pub deal_key : Deal → ℕ
deal_key d = d.name

abbrev pub container_key : Container → ℕ
container_key c = c.name

abbrev pub exception_key : ExceptionDoc → ℕ
exception_key x = x.name

abbrev pub approval_key : Approval → ℕ
approval_key a = a.name

abbrev pub revision_key : Revision → ℕ
revision_key r = r.name

abbrev pub outward_key : Outward → ℕ
outward_key o = o.name

abbrev pub quantity_key : QuantityAssertion → ℕ
quantity_key a = a.name

abbrev pub field_assertion_key : FieldAssertion → ℕ
field_assertion_key a = a.name

abbrev pub evidence_key : Evidence → ℕ
evidence_key e = e.name

-- `frappe.get_doc`
abbrev pub get_deal : ℕ → Db → Result Deal
get_deal n db = or_throw (find deal_key n db.deals) Error.not_found

abbrev pub get_container : ℕ → Db → Result Container
get_container n db = or_throw (find container_key n db.containers) Error.not_found

abbrev pub get_approval : ℕ → Db → Result Approval
get_approval n db = or_throw (find approval_key n db.approvals) Error.not_found

abbrev pub get_revision : ℕ → Db → Result Revision
get_revision n db = or_throw (find revision_key n db.revisions) Error.not_found

abbrev pub get_outward : ℕ → Db → Result Outward
get_outward n db = or_throw (find outward_key n db.outwards) Error.not_found

abbrev pub get_assertion : ℕ → Db → Result QuantityAssertion
get_assertion n db = or_throw (find quantity_key n db.assertions) Error.not_found

abbrev pub get_field_assertion : ℕ → Db → Result FieldAssertion
get_field_assertion n db = or_throw (find field_assertion_key n db.field_assertions) Error.not_found

abbrev pub get_exception : ℕ → Db → Result ExceptionDoc
get_exception n db = or_throw (find exception_key n db.exceptions) Error.not_found

abbrev pub write_outward : Outward → M (Unit {0})
write_outward o = modify λ db. record db { outwards = put outward_key o db.outwards }

abbrev pub write_assertion : QuantityAssertion → M (Unit {0})
write_assertion a = modify λ db. record db { assertions = put quantity_key a db.assertions }

abbrev pub write_field_assertion : FieldAssertion → M (Unit {0})
write_field_assertion a =
    modify λ db. record db { field_assertions = put field_assertion_key a db.field_assertions }

abbrev pub write_deal : Deal → M (Unit {0})
write_deal d = modify λ db. record db { deals = put deal_key d db.deals }

abbrev pub write_exception : ExceptionDoc → M (Unit {0})
write_exception x = modify λ db. record db { exceptions = put exception_key x db.exceptions }

abbrev pub write_approval : Approval → M (Unit {0})
write_approval a = modify λ db. record db { approvals = put approval_key a db.approvals }

abbrev pub write_revision : Revision → M (Unit {0})
write_revision r = modify λ db. record db { revisions = put revision_key r db.revisions }

abbrev pub write_container : Container → M (Unit {0})
write_container c = modify λ db. record db { containers = put container_key c db.containers }

-- A name for a new document.
abbrev pub fresh : M ℕ
fresh db = ok (db.next_name, record db { next_name = db.next_name + 1 })

-- A check, and then what is answered.
abbrev pub after : {A : Type 0} → Check → Result A → Result A
after (ok _) r = r
after (err e) r = err e

-- A check that answers nothing.
abbrev pub ignore : {A : Type 0} → Result A → Check
ignore (ok _) = pass
ignore (err e) = err e

abbrev pub is_unique_violation : Error → Bool
is_unique_violation Error.unique_violation = true
is_unique_violation _ = false

-- `try` an insert between savepoints, `except UniqueValidationError`: the second action finds the
-- database as it was before the first.
unfoldable pub on_duplicate : {A : Type 0} → M A → M A → M A
on_duplicate m k db = elim (m db) [
  | ok r ↦ ok r
  | err e ↦ if is_unique_violation e then k db else err e
]
