-- ===== src/Pc.antt =====
-- The protocol layer of the PC side, simulink/c2837x_block_protocol.c.
pub mod Frames
pub mod Messages
pub mod Link
pub mod Wire
pub mod Replies
pub mod Simulated
pub mod PcSocket
mod Tests
