-- ===== src/Go.antt =====
-- What the server uses of Go's language and standard library: strings as bytes, `strconv`, the
-- white space of `strings.TrimSpace`, UTF-8 and UTF-16.
pub mod Base64
pub mod Bytes
pub mod Decimal
pub mod Hex
pub mod Text
