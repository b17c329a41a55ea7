-- ===== src/Dict.antt =====
-- Python's `dict` with string keys: operations and laws.
mod Defs
mod Laws
mod Values
unfoldable pub use Defs.*
pub use Laws.*
pub use Values.*
