-- ===== src/FieldAssertions.antt =====
-- outward_service.py and fresko_field_assertion.py: claims on the rate of a posted Outward, their
-- review, and the Exception that a complete pricing settles.
mod Document
mod Creating
mod Reviewing
pub mod Sole
pub mod Activating
pub mod Drafting
pub mod Beside
unfoldable pub use Document.*
unfoldable pub use Creating.*
unfoldable pub use Reviewing.*
