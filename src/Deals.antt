-- ===== src/Deals.antt =====
-- deals.py: the whitelisted methods of a Deal, but for revisions. Each takes the database that
-- its unlocked probe read, then runs on the one that it finds once it has the locks.
mod Locking
mod Rating
mod Countering
mod Moving
pub mod Steps
pub mod Untouched
pub mod Locked
pub mod RateOutcome
pub mod AutoApproval
pub mod Acceptance
pub mod Cancelling
pub mod Dispatch
pub mod Replay
pub mod Reservation
pub mod Offers
unfoldable pub use Locking.*
unfoldable pub use Rating.*
unfoldable pub use Countering.*
unfoldable pub use Moving.*
