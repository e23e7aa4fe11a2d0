-- ===== src/Golang.antt =====
-- What the program uses of Go's `strconv` and `strings`, over byte strings.
pub mod Int
pub mod Decimal
pub mod Net
pub mod Binary
pub mod Text
