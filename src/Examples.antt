-- ===== src/Examples.antt =====
-- A small stock and a few users, on which the theorems' hypotheses are seen to hold.
mod Setting
mod Runs
mod LedgerRuns
mod Deciding
mod Revising
mod Moving
mod Stock
mod Ledger
mod Claims
mod Rates
mod Rules
unfoldable pub use Setting.*
unfoldable pub use Runs.*
unfoldable pub use LedgerRuns.*
