-- ===== src/Access.antt =====
-- permissions.py: the role gates of the whitelisted methods, and the permission hooks.
mod Gates
mod Hooks
mod LedgerHooks
pub mod Rules
unfoldable pub use Gates.*
unfoldable pub use Hooks.*
unfoldable pub use LedgerHooks.*
