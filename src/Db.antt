-- ===== src/Db.antt =====
-- The database that one request sees, and a request's code: state passing with exceptions. An
-- exception abandons the state, as Frappe rolls the transaction back.
mod Errors
mod State
mod Outcomes
pub mod Relates
pub mod Frame
pub use Errors.*
unfoldable pub use State.*
pub use Outcomes.*
