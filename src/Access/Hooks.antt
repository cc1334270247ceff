-- ===== src/Access/Hooks.antt =====
-- The permission hooks: who may see and write documents from the Desk.
use fresko_universe.Prelude.{Bool, true, false, ◌&&◌, ◌||◌, not, if◌then◌else◌}
use fresko_universe.Data.{Deal, Session, DealStatus, is_status}
use fresko_universe.Access.Gates.{is_deal_owner_or_salesperson}

-- `ptype`; `other` is any other text
pub data PermissionType : Type 0 where
  read write create delete print email report export share other : PermissionType

-- The Deal is seen by a Salesperson only if it is theirs: the row filter of
-- `deal_permission_query`, on one row.
unfoldable pub deal_permission_query : Session → Deal → Bool
unfolding is_deal_owner_or_salesperson
deal_permission_query s d =
    if not s.administrator && s.supplier
    then false
    else if s.administrator || s.system_manager
    then true
    else if s.approver || s.accounts
    then true
    else if s.salesperson
    then is_deal_owner_or_salesperson d s.user
    else false

-- The branch of a Fresko Accounts user with no other role.
unfoldable pub accounts_may : PermissionType → Bool
accounts_may PermissionType.read = true
accounts_may _ = false

-- The branch of a Fresko Approver.
unfoldable pub approver_may : PermissionType → Deal → Bool
approver_may PermissionType.delete d = false
approver_may PermissionType.write d = is_status d.status DealStatus.proposed
approver_may PermissionType.other d = false
approver_may _ d = true

-- The branch of a Fresko Salesperson; `assigned` is `_deal_is_assigned`.
unfoldable pub salesperson_may : PermissionType → Bool → Deal → Bool
salesperson_may PermissionType.create assigned d = true
salesperson_may PermissionType.delete assigned d = false
salesperson_may PermissionType.write assigned d = assigned && is_status d.status DealStatus.proposed
salesperson_may PermissionType.other assigned d = false
salesperson_may _ assigned d = assigned

-- deal_has_permission
unfoldable pub deal_has_permission : Session → Deal → PermissionType → Bool
unfolding accounts_may approver_may salesperson_may is_deal_owner_or_salesperson
deal_has_permission s d ptype =
    if not s.administrator && s.supplier
    then false
    else if s.administrator
    then true
    else if s.system_manager
    then true
    else if s.accounts && not s.approver && not s.salesperson
    then accounts_may ptype
    else if s.approver
    then approver_may ptype d
    else if s.salesperson
    then salesperson_may ptype (is_deal_owner_or_salesperson d s.user) d
    else false
