-- ===== src/Bytes.antt =====
-- Byte strings, and what the program uses of the standard library on them: literals, the
-- little-endian bytes of an integer, C strings, UTF-8, decimal numerals.
mod Text
pub mod LittleEndian
pub mod CString
pub mod Utf8
pub mod Decimal
pub use Text.*
