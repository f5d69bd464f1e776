-- ===== src/Go.antt =====
-- What the program uses of Go's standard library: errors, byte orders and connections.
pub mod Errors
pub mod Binary
pub mod Conn
