-- ===== src/Examples/Rules.antt =====
-- Rates, roles and the materiality of Exceptions.
use fresko_universe.Access.{
  deal_permission_query, deal_has_permission, PermissionType, is_deal_owner_or_salesperson,
}
use fresko_universe.Access.Rules.{
  desk_write_proposed, desk_delete_denied, query_of_read, query_without_read,
}
use fresko_universe.CloseGate.{exception_is_material}
use fresko_universe.CloseGate.Harmless.{Harmless, exception_is_material-false}
use fresko_universe.Data.{Session, is_status, DealStatus, Severity, ExceptionType}
use fresko_universe.Examples.{runs, units, container_a, deal_a, seller}
use fresko_universe.Prelude.{◌≡◌, refl, ◌⊎◌, true, false, ◌||◌, none, some, ◌↔◌, is_set}
use fresko_universe.RateRules.{resolve_rate_band, policy_resolved, rate_in_band}
use fresko_universe.RateRules.Band.{
  IsBound, AtLeast, AtMost, rate_in_band_iff, policy_resolved-resolve_rate_band,
}

rate_in_band_iff_example : (rate_in_band (units 15) (some (units 10)) none ≡ true) ↔ (
    (IsBound (some (units 10)) ⊎ IsBound none)
    × AtLeast (some (units 10)) (units 15)
    × AtMost none (units 15))
rate_in_band_iff_example = rate_in_band_iff (units 15) (some (units 10)) none

policy_resolved-resolve_rate_band_example :
    policy_resolved
      (resolve_rate_band container_a (some 11) none).0
      (resolve_rate_band container_a (some 11) none).1
    ≡ (is_set (resolve_rate_band container_a (some 11) none).0
        || is_set (resolve_rate_band container_a (some 11) none).1)
policy_resolved-resolve_rate_band_example =
    policy_resolved-resolve_rate_band container_a (some 11) none

seller_writes : deal_has_permission seller deal_a PermissionType.write ≡ true
unfolding runs
seller_writes = refl

desk_write_proposed_example :
    (is_status deal_a.status DealStatus.proposed ≡ true)
    × (seller.supplier ≡ false)
    × ((seller.approver ≡ true)
        ⊎ ((seller.salesperson ≡ true) × (is_deal_owner_or_salesperson deal_a seller.user ≡ true)))
desk_write_proposed_example = desk_write_proposed seller deal_a refl refl seller_writes

desk_delete_denied_example : deal_has_permission seller deal_a PermissionType.delete ≡ false
desk_delete_denied_example = desk_delete_denied seller deal_a refl refl

seller_reads : deal_has_permission seller deal_a PermissionType.read ≡ true
unfolding runs
seller_reads = refl

query_of_read_example : deal_permission_query seller deal_a ≡ true
query_of_read_example = query_of_read seller deal_a seller_reads

-- A Salesperson who also keeps accounts, of another's Deal.
abbrev bookkeeper : Session
bookkeeper = record seller { user = 74; accounts = true }

query_without_read_example :
    ((deal_permission_query bookkeeper deal_a ≡ true)
      × (deal_has_permission bookkeeper deal_a PermissionType.read ≡ false))
    ↔ ((bookkeeper.administrator ≡ false)
        × (bookkeeper.supplier ≡ false)
        × (bookkeeper.system_manager ≡ false)
        × (bookkeeper.approver ≡ false)
        × (bookkeeper.accounts ≡ true)
        × (bookkeeper.salesperson ≡ true)
        × (is_deal_owner_or_salesperson deal_a bookkeeper.user ≡ false))
query_without_read_example = query_without_read bookkeeper deal_a

exception_is_material-false_example :
    (exception_is_material ExceptionType.other Severity.high ≡ false)
    ↔ Harmless ExceptionType.other Severity.high
exception_is_material-false_example = exception_is_material-false ExceptionType.other Severity.high
