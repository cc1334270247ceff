-- ===== src/DealDoc.antt =====
-- fresko_deal.py: what every save of a Deal goes through.
mod Checks
mod Save
pub mod Passed
pub mod Inserted
pub mod Keys
pub mod Lots
pub mod Frozen
pub mod Kept
pub mod Evolves
pub mod Closed
pub mod KeepsKeys
unfoldable pub use Checks.*
unfoldable pub use Save.*
