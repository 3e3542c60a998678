-- ===== src/Text.antt =====
-- Strings: their bytes and their equality, `split` and `join`, and `parse` into numbers.
mod Bytes
mod Lists
pub mod Split
pub mod Number
pub mod Decimal
pub mod Utf8
pub mod Words
unfoldable pub use Bytes.*
unfoldable pub use Lists.*
