-- ===== src/ContainerDoc.antt =====
-- fresko_container.py: what every save of a Container goes through.
mod Checks
mod Save
pub mod Kept
pub mod Lots
unfoldable pub use Checks.*
unfoldable pub use Save.*
