-- ===== src/Quantities.antt =====
-- quantity_assertion_service.py and fresko_container_quantity_assertion.py: claims on the quantity
-- of a Container, their review, and the variance between two of them.
mod Document
mod Reviewing
mod Variance
mod Decisions
mod Projection
pub mod Sole
pub mod Activating
pub mod Aside
pub mod Deciding
pub mod Overtaken
pub mod Others
pub mod Drafting
pub mod Reviewed
unfoldable pub use Document.*
unfoldable pub use Reviewing.*
unfoldable pub use Variance.*
unfoldable pub use Decisions.*
unfoldable pub use Projection.*
