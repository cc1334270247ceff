-- ===== src/Examples/Stock.antt =====
-- The posted ledger, the close gate and the save of a Container.
use fresko_universe.Ats.{lot_of}
use fresko_universe.CloseGate.{assert_container_can_fully_reconcile}
use fresko_universe.CloseGate.Blocks.{gate-MayClose, MayClose}
use fresko_universe.ContainerDoc.{save_container}
use fresko_universe.ContainerDoc.Kept.{save_container-ContainerKept, ContainerKept}
use fresko_universe.ContainerDoc.Lots.{save_container-LotsSound, LotsSound}
use fresko_universe.Data.{
  no_scope, Lot, Container, ExceptionDoc, DealStatus, ContainerStatus, Severity, ExceptionStatus,
  ExceptionType,
}
use fresko_universe.Db.{pass, container_key, Db, ok}
use fresko_universe.Examples.{runs, units, container_a, deal_a, db_of, outward_a}
use fresko_universe.Physical.{
  posted_lines, posted_physical_quantities, posted_of, posted_total, tolerance,
  assert_mapped_lot_capacity,
}
use fresko_universe.Physical.Ledger.{
  net_of_lot, net_of_all, posted_physical_quantities-net, assert_mapped_lot_capacity-net,
}
use fresko_universe.Prelude.{ℕ, ◌≡◌, refl, Bool, true, false, none, some, [], ◌∷◌, Ref, find}
use fresko_universe.Prelude.Int.{◌+ℤ◌, ◌≤ℤ◌}

abbrev exception_a : ExceptionDoc
exception_a = record {
  name = 15;
  exception_type = ExceptionType.other;
  severity = Severity.low;
  status = ExceptionStatus.open_;
  deal = some 5;
  container = some 1;
  collection = none;
  money_company = none;
  money_scope_key = none;
  commercial_scope_key = none;
  sale = none;
  scope = no_scope;
}

-- The Deal has taken 40 units, of which 30 have left.
abbrev db_7 : Db
db_7 = record (db_of (record deal_a { status = DealStatus.outward_pending })) {
  outwards = outward_a ∷ [];
  exceptions = exception_a ∷ [];
}

posted_physical_quantities-net_example :
    ((lot : ℕ)
      → posted_of lot (posted_physical_quantities 1 db_7).by_lot
        ≡ net_of_lot lot (posted_lines 1 db_7.outwards))
    × (posted_total (posted_physical_quantities 1 db_7) ≡ net_of_all (posted_lines 1 db_7.outwards))
posted_physical_quantities-net_example = posted_physical_quantities-net 1 db_7

capacity-ok : assert_mapped_lot_capacity 1 11 (units 70) (some 3) db_7 ≡ ok (units 70)
unfolding runs
capacity-ok = refl

assert_mapped_lot_capacity-net_example :
    (l : Lot) × (lot_of 1 11 db_7 ≡ some l)
    × (some 3 ≡ l.uom)
    × (net_of_lot 11 (posted_lines 1 db_7.outwards) +ℤ units 70 ≤ℤ l.inward_qty +ℤ tolerance)
assert_mapped_lot_capacity-net_example =
    assert_mapped_lot_capacity-net 1 11 (units 70) (units 70) (some 3) db_7 capacity-ok

gate-ok : assert_container_can_fully_reconcile 1 (some 41) db_7 ≡ pass
unfolding runs
gate-ok = refl

gate-MayClose_example : MayClose 1 (some 41) db_7
gate-MayClose_example = gate-MayClose 1 (some 41) db_7 gate-ok

-- The Container starts to close.
abbrev closing_container : Container
closing_container = record container_a { status = ContainerStatus.closing }

abbrev every_company : Ref → Bool
every_company c = true

closing-ok :
    save_container every_company false closing_container db_7
    ≡ ok (tt, record db_7 { containers = closing_container ∷ [] })
unfolding runs
closing-ok = refl

container_found : find container_key 1 db_7.containers ≡ some container_a
unfolding runs
container_found = refl

save_container-ContainerKept_example :
    ContainerKept container_a closing_container db_7
      (record db_7 { containers = closing_container ∷ [] })
save_container-ContainerKept_example =
    save_container-ContainerKept every_company false container_a closing_container db_7
      (record db_7 { containers = closing_container ∷ [] }) container_found closing-ok

save_container-LotsSound_example : LotsSound closing_container
save_container-LotsSound_example =
    save_container-LotsSound every_company false closing_container db_7
      (record db_7 { containers = closing_container ∷ [] }) closing-ok
