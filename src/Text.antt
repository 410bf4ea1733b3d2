-- ===== src/Text.antt =====
-- The operations of Python's `str` that the SDK uses, over lists of code points.
mod Defs
mod Laws
pub mod Compare
pub mod Utf8
unfoldable pub use Defs.*
pub use Laws.*
