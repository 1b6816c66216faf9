-- ===== src/Std.antt =====
-- What the program uses of Go's standard library, over byte strings.
pub mod Trim
pub mod Lines
pub mod Path
pub mod Strings
pub mod Strconv
pub mod Base64
pub mod Binary
pub mod Utf8
pub mod Hex
