-- ===== src/Revisions.antt =====
-- Controlled changes of an approved Deal: request_revision and apply_revision of deals.py,
-- create_revision_approval of approvals.py, and fresko_revision.py.
mod Document
mod Fields
mod Requesting
mod Applying
pub mod Steps
pub mod History
pub mod Kept
pub mod Fresh
pub mod Records
pub mod Once
unfoldable pub use Document.*
unfoldable pub use Fields.*
unfoldable pub use Requesting.*
unfoldable pub use Applying.*
