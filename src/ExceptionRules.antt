-- ===== src/ExceptionRules.antt =====
-- fresko_exception.py: what every save of an Exception goes through, and its deletion.
mod Scope
mod Save
pub mod Refused
unfoldable pub use Scope.*
unfoldable pub use Save.*
