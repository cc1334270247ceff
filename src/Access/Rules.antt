-- ===== src/Access/Rules.antt =====
-- Who may do what with a Deal.
use mathlib.Core.Logic.{◌↔◌}
use fresko_universe.Prelude.{◌≡◌, true, false, ◌⊎◌, arith}
use fresko_universe.Data.{Deal, Session, DealStatus, is_status}
use fresko_universe.Access.{
  PermissionType, deal_has_permission, deal_permission_query, is_deal_owner_or_salesperson,
}

-- A user who is neither the Administrator nor a System Manager may write a Deal from the Desk
-- only while it is Proposed, with no supplier role, and as an Approver or as its owner or
-- assigned salesperson.
pub desk_write_proposed :
    (s : Session) (d : Deal)
    → s.administrator ≡ false
    → s.system_manager ≡ false
    → deal_has_permission s d PermissionType.write ≡ true
    → (is_status d.status DealStatus.proposed ≡ true)
      × (s.supplier ≡ false)
      × ((s.approver ≡ true)
          ⊎ ((s.salesperson ≡ true) × (is_deal_owner_or_salesperson d s.user ≡ true)))
unfolding deal_has_permission
desk_write_proposed s d na nm h = ground arith

-- No role but Administrator and System Manager may delete a Deal.
pub desk_delete_denied :
    (s : Session) (d : Deal)
    → s.administrator ≡ false
    → s.system_manager ≡ false
    → deal_has_permission s d PermissionType.delete ≡ false
unfolding deal_has_permission
desk_delete_denied s d na nm = ground arith

-- Whoever may read a Deal has it in the filtered list.
pub query_of_read :
    (s : Session) (d : Deal)
    → deal_has_permission s d PermissionType.read ≡ true
    → deal_permission_query s d ≡ true
unfolding deal_has_permission deal_permission_query
query_of_read s d h = ground arith

-- The filtered list holds a Deal that its reader may not open exactly for a Salesperson who also
-- has the Accounts role, is no Approver, and does not have the Deal: the two hooks disagree
-- there.
pub query_without_read :
    (s : Session) (d : Deal)
    → ((deal_permission_query s d ≡ true) × (deal_has_permission s d PermissionType.read ≡ false))
      ↔ ((s.administrator ≡ false)
          × (s.supplier ≡ false)
          × (s.system_manager ≡ false)
          × (s.approver ≡ false)
          × (s.accounts ≡ true)
          × (s.salesperson ≡ true)
          × (is_deal_owner_or_salesperson d s.user ≡ false))
unfolding deal_has_permission deal_permission_query
query_without_read s d = (λ h. ground arith, λ h. ground arith)
