-- ===== src/Ipc.antt =====
-- The protocol library that both MCUs share: ipc/src/*.c and ipc/include/telegraph/ipc.h.
pub mod Crc
pub mod Wire
pub mod Encode
pub mod Parser
pub mod Payload
