-- ===== src/Outwards.antt =====
-- outward_service.py and fresko_outward.py: Outwards are prepared, reviewed, posted and reversed.
mod Document
mod Lines
mod Creating
mod Reversing
mod Opening
mod Posting
pub mod Mapped
pub mod Saved
pub mod AfterPost
pub mod Stock
pub mod Posted
pub mod Inserted
pub mod Asked
pub mod Requested
pub mod Replay
pub mod Replayed
pub mod Mirror
pub mod Reversed
pub mod Submitted
pub mod Added
unfoldable pub use Document.*
unfoldable pub use Lines.*
unfoldable pub use Creating.*
unfoldable pub use Reversing.*
unfoldable pub use Opening.*
unfoldable pub use Posting.*
