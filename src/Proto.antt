-- ===== src/Proto.antt =====
-- proto/zehnder.pb.go: enumerations, message structs and the interface value that holds one.
pub mod Enums
pub mod Messages
pub mod Payload
pub mod Codec
