-- ===== src/Text.antt =====
-- Python's `str`: the methods that the program calls, and their laws.
mod Defs
mod Laws
unfoldable pub use Defs.*
pub use Laws.*
