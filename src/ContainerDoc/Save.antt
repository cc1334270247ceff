-- ===== src/ContainerDoc/Save.antt =====
-- FreskoContainer.validate in its order, and the save of a Container.
use fresko_universe.ContainerDoc.Checks.{
  validate_unique_container_no, validate_lots, validate_inward_qty,
  validate_inward_vs_posted_physical, validate_inward_vs_approved_sold,
  validate_container_transition, is_fully_reconciled, validate_close_gate,
}
use fresko_universe.Data.{Container}
use fresko_universe.Db.{
  Check, throw_if, ◌then_check◌, M, ◌>>◌, reads, container_key, write_container, Db, Error,
}
use fresko_universe.Prelude.{Bool, ◌&&◌, not, Option, Ref, find}

-- lock_close_gate_company; `company_exists` stands for the table of ERPNext's companies
unfoldable pub lock_close_gate_company : (Ref → Bool) → Container → Check
unfolding is_fully_reconciled
lock_close_gate_company company_exists c =
    throw_if (is_fully_reconciled c.closing_status && not (company_exists c.company))
      Error.company_missing

-- FreskoContainer.validate
unfoldable pub validate_container : (Ref → Bool) → Db → Bool → Option Container → Container → Check
validate_container company_exists db reason old c =
    lock_close_gate_company company_exists c
    then_check validate_unique_container_no db c
    then_check validate_lots c
    then_check validate_inward_qty reason old c
    then_check validate_inward_vs_posted_physical db old c
    then_check validate_inward_vs_approved_sold db old c
    then_check validate_container_transition old c
    then_check validate_close_gate db c

-- `container.save()`: the stored Container of its name is the one before
unfoldable pub save_container : (Ref → Bool) → Bool → Container → M (Unit {0})
save_container company_exists reason c = do
  reads
      λ db. validate_container company_exists db reason (find container_key c.name db.containers) c
  write_container c
