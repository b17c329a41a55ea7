-- ===== src/Regex.antt =====
-- Python's `re`, as far as the program's patterns use it: a matcher, and what it decides.
mod Defs
mod Laws
mod Captures
unfoldable pub use Defs.*
pub use Laws.*
pub use Captures.*
