-- ===== src/Approvals.antt =====
-- approvals.py and fresko_approval.py: the approver's decision on a Deal.
mod Recording
mod Deciding
pub mod Steps
pub mod Outcome
unfoldable pub use Recording.*
unfoldable pub use Deciding.*
