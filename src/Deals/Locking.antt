-- ===== src/Deals/Locking.antt =====
-- The probe and the locking read that a whitelisted method begins with, and its save's flags.
use fresko_universe.Data.{Deal, no_flags, Flags}
use fresko_universe.Db.{Check, throw_if, M, ◌>>=◌, ◌>>◌, pure, reads, check, get_deal, Db, Error}
use fresko_universe.Prelude.{ℕ, true, not, ◌==◌}

abbrev pub set_status : Flags
set_status = record no_flags { allow_status_transition = true }

abbrev pub set_status_and_rate : Flags
set_status_and_rate = record no_flags {
  allow_status_transition = true;
  allow_approval_write = true;
}

-- The probe, the gate on what it read, and the locking read of the Deal.
unfoldable pub locked_deal : Db → ℕ → (Deal → Check) → M Deal
locked_deal before n gate = do
  probe ← reads λ _. get_deal n before
  check (gate probe)
  deal ← reads (get_deal n)
  check (throw_if (not (deal.container == probe.container)) Error.container_changed)
  pure deal
