-- ===== src/Access/LedgerHooks.antt =====
-- The permission hooks of Evidence, Outwards and assertions.
use fresko_universe.Access.Gates.{is_deal_owner_or_salesperson}
use fresko_universe.Access.Hooks.{PermissionType}
use fresko_universe.Data.{QuantityAssertion, Outward, FieldAssertion, Evidence, Session}
use fresko_universe.Db.{deal_key, outward_key, evidence_key, Db}
use fresko_universe.Prelude.{
  ℕ, Bool, true, false, ◌&&◌, ◌||◌, not, none, some, ◌==◌, if◌then◌else◌, Ref, is_set, ◌=?◌, find,
}

-- A supplier who is not the Administrator.
abbrev pub is_supplier : Session → Bool
is_supplier s = not s.administrator && s.supplier

abbrev pub is_manager : Session → Bool
is_manager s = s.administrator || s.system_manager

-- `ptype in {"read", "print", "report", "export"}`
unfoldable pub is_view : PermissionType → Bool
is_view PermissionType.read = true
is_view PermissionType.print = true
is_view PermissionType.report = true
is_view PermissionType.export = true
is_view _ = false

-- `ptype in {"read", "print", "report"}`
unfoldable pub is_own_view : PermissionType → Bool
is_own_view PermissionType.read = true
is_own_view PermissionType.print = true
is_own_view PermissionType.report = true
is_own_view _ = false

-- _deal_is_assigned, of a Deal by its name
unfoldable pub deal_is_assigned : Session → ℕ → Db → Bool
unfolding is_deal_owner_or_salesperson find
deal_is_assigned s deal db = elim (find deal_key deal db.deals) [
  | none ↦ false
  | some d ↦ is_deal_owner_or_salesperson d s.user
]

-- The branch of a Salesperson in evidence_has_permission, once deletion is refused.
unfoldable pub evidence_of_deal : Session → PermissionType → Ref → Db → Bool
unfolding is_view deal_is_assigned
evidence_of_deal s PermissionType.create none db = true
evidence_of_deal s PermissionType.write none db = true
evidence_of_deal s ptype none db = is_view ptype
evidence_of_deal s ptype (some deal) db = deal_is_assigned s deal db

-- The Deal of an Evidence by its name, none where there is no such Evidence.
unfoldable pub deal_of_evidence : ℕ → Db → Ref
unfolding find
deal_of_evidence n db = elim (find evidence_key n db.evidences) [ none ↦ none | some e ↦ e.deal ]

abbrev is_read : PermissionType → Bool
is_read PermissionType.read = true
is_read _ = false

abbrev is_delete : PermissionType → Bool
is_delete PermissionType.delete = true
is_delete _ = false

abbrev is_mutation : PermissionType → Bool
is_mutation PermissionType.create = true
is_mutation PermissionType.write = true
is_mutation _ = false

-- evidence_has_permission
unfoldable pub evidence_has_permission : Session → ℕ → PermissionType → Db → Bool
unfolding evidence_of_deal deal_of_evidence
evidence_has_permission s n ptype db =
    if is_supplier s
    then false
    else if is_manager s
    then true
    else if s.accounts && not s.approver && not s.salesperson
    then is_read ptype
    else if s.approver
    then not (is_delete ptype)
    else if s.salesperson
    then not (is_delete ptype) && evidence_of_deal s ptype (deal_of_evidence n db) db
    else false

-- evidence_permission_query, on one row
unfoldable pub evidence_permission_query : Session → Evidence → Db → Bool
unfolding deal_is_assigned
evidence_permission_query s e db =
    if is_supplier s
    then false
    else if is_manager s || s.approver || s.accounts
    then true
    else if s.salesperson
    then (elim e.deal [ none ↦ true | some deal ↦ deal_is_assigned s deal db ])
    else false

-- evidence_attachment_has_permission; `evidence` is the attachment's
unfoldable pub attachment_has_permission : Session → Ref → Bool → PermissionType → Db → Bool
unfolding evidence_has_permission
attachment_has_permission s evidence in_service ptype db =
    if is_supplier s || is_delete ptype
    then false
    else if is_mutation ptype
    then in_service
    else (elim evidence [
      | none ↦ false
      | some n ↦ evidence_has_permission s n PermissionType.read db
    ])

-- evidence_attempt_has_permission; the Evidence may be gone
unfoldable pub attempt_has_permission : Session → Ref → PermissionType → Db → Bool
unfolding evidence_has_permission find
attempt_has_permission s evidence ptype db =
    if is_supplier s || not (is_read ptype) then false else (elim evidence [
      | none ↦ false
      | some n ↦
          if is_set (find evidence_key n db.evidences)
          then evidence_has_permission s n PermissionType.read db
          else is_manager s
    ])

-- outward_permission_query, on one row
unfoldable pub outward_permission_query : Session → Outward → Bool
outward_permission_query s o =
    if is_supplier s
    then false
    else if is_manager s || s.approver || s.accounts
    then true
    else s.salesperson && o.prepared_by == s.user

-- outward_has_permission, where `prepared_by` is the document's and `in_service` its flag
unfoldable pub outward_has_permission : Session → Ref → Bool → PermissionType → Bool
unfolding is_view is_own_view
outward_has_permission s prepared_by in_service ptype =
    if is_supplier s || is_delete ptype
    then false
    else if is_mutation ptype
    then in_service
    else if is_manager s
    then true
    else if s.approver || s.accounts
    then is_view ptype
    else s.salesperson && prepared_by =? some s.user && is_own_view ptype

-- The preparer of an Outward by its name.
unfoldable pub preparer_of : ℕ → Db → Ref
unfolding find
preparer_of n db = elim (find outward_key n db.outwards) [
  | none ↦ none
  | some o ↦ some o.prepared_by
]

-- field_assertion_has_permission
unfoldable pub field_assertion_has_permission :
    Session → FieldAssertion → Bool → PermissionType → Db → Bool
unfolding outward_has_permission preparer_of
field_assertion_has_permission s a in_service ptype db =
    if is_supplier s || is_delete ptype
    then false
    else if is_mutation ptype
    then in_service
    else outward_has_permission s (preparer_of a.outward db) false ptype

-- field_assertion_permission_query, on one row
unfoldable pub field_assertion_permission_query : Session → FieldAssertion → Db → Bool
unfolding preparer_of
field_assertion_permission_query s a db =
    if is_supplier s
    then false
    else if is_manager s || s.approver || s.accounts
    then true
    else s.salesperson && preparer_of a.outward db =? some s.user

-- quantity_assertion_permission_query, on one row: suppliers are not told apart
unfoldable pub quantity_assertion_permission_query : Session → QuantityAssertion → Bool
quantity_assertion_permission_query s a =
    if is_manager s || s.approver || s.accounts
    then true
    else s.salesperson && a.prepared_by == s.user

-- quantity_assertion_has_permission: nor here
unfoldable pub quantity_assertion_has_permission :
    Session → QuantityAssertion → Bool → PermissionType → Bool
unfolding is_view is_own_view
quantity_assertion_has_permission s a in_service ptype =
    if is_delete ptype
    then false
    else if is_mutation ptype
    then in_service
    else if is_manager s
    then true
    else if s.approver || s.accounts
    then is_view ptype
    else s.salesperson && a.prepared_by == s.user && is_own_view ptype
