-- ===== src/Comfoconnect.antt =====
-- pkg/comfoconnect: the ComfoConnect protocol.
pub mod Types
pub mod Socket
pub mod Answers
pub mod Message
pub mod Receive
pub mod Rounds
pub mod Rpdo
pub mod Session
pub mod Broadcast
