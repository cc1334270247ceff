-- ===== src/Deals/Rating.antt =====
-- apply_rate_rules of deals.py.
use fresko_universe.Access.{assert_can_work_on_deal}
use fresko_universe.Ats.{available_to_sell}
use fresko_universe.Data.{Deal, Session, Flags, is_status, DealStatus, Severity, ExceptionType}
use fresko_universe.Db.{
  throw_if, M, ◌>>=◌, ◌>>◌, pure, reads, check, get_container, write_deal, Db, Error,
}
use fresko_universe.DealDoc.{save_deal}
use fresko_universe.Deals.Locking.{set_status, set_status_and_rate, locked_deal}
use fresko_universe.Exceptions.{open_exception, ensure_open_exception, maybe_open_buyer_unresolved}
use fresko_universe.Prelude.{ℕ, true, false, not, none, some, if◌then◌else◌}
use fresko_universe.Prelude.Int.{ltb_ℤ, ℤ}
use fresko_universe.RateRules.{Bands, resolve_rate_band, policy_resolved, rate_in_band}

-- The Deal with the band that was looked up.
unfoldable pub snapshot : Bands → Deal → Deal
snapshot band d = record d { rate_floor = band.0; rate_ceiling = band.1 }

-- What the three branches of apply_rate_rules write to the Deal.
unfoldable pub to_approval : Deal → Deal
to_approval d = record d { approval_required = true; status = DealStatus.approval_required }

unfoldable pub auto_approve : Deal → Deal
auto_approve d = record d {
  approved_rate = some d.proposed_rate;
  approval_required = false;
  status = DealStatus.auto_approved;
}

-- The branch of a rate within the band.
unfoldable pub rate_accepted : Deal → ℤ → M (Flags × Deal)
rate_accepted d ats =
    if ltb_ℤ ats d.qty
    then (do
      open_exception (to_approval d) ExceptionType.stock_shortfall Severity.material
      pure (set_status, to_approval d))
    else (do
      maybe_open_buyer_unresolved (auto_approve d)
      pure (set_status_and_rate, auto_approve d))

-- The three branches of apply_rate_rules, on the Deal with its band.
unfoldable pub rate_branches : Deal → M (Flags × Deal)
rate_branches d =
    if not (policy_resolved d.rate_floor d.rate_ceiling)
    then (do
      open_exception (to_approval d) ExceptionType.rate_policy_missing Severity.material
      pure (set_status, to_approval d))
    else if rate_in_band d.proposed_rate d.rate_floor d.rate_ceiling
    then (do
      ats ← reads (available_to_sell d.container d.lot_no (some d.name))
      rate_accepted d ats)
    else (do
      ensure_open_exception (to_approval d) ExceptionType.rate_floor_breach Severity.material
      pure (set_status, to_approval d))

-- The fields that are set to NULL after the save.
unfoldable pub null_fields : Deal → Deal
null_fields d =
    if not (policy_resolved d.rate_floor d.rate_ceiling)
    then record d { rate_floor = none; rate_ceiling = none; approved_rate = none }
    else if is_status d.status DealStatus.approval_required
    then record d { approved_rate = none }
    else d

-- apply_rate_rules
unfoldable pub apply_rate_rules : Session → Db → ℕ → M Deal
apply_rate_rules s before n = do
  deal ← locked_deal before n (assert_can_work_on_deal s)
  check (assert_can_work_on_deal s deal)
  check (throw_if (not (is_status deal.status DealStatus.proposed)) Error.wrong_status)
  c ← reads (get_container deal.container)
  (flags, rated) ← rate_branches (snapshot (resolve_rate_band c deal.lot_no deal.count_size) deal)
  saved ← save_deal flags rated
  write_deal (null_fields saved)
  pure (null_fields saved)
