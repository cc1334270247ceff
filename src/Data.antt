-- ===== src/Data.antt =====
-- The data model: the Select vocabularies, and the documents with the fields that the modelled
-- code reads or writes. Texts, names and links are only compared, so they are numbers.
mod Vocabulary
mod Documents
mod Request
pub use Vocabulary.*
pub use Documents.*
pub use Request.*
