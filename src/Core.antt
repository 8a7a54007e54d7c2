-- ===== src/Core.antt =====
-- The device-independent protocol Core, dsp/src/c2837x_block.c.
pub mod Types
pub mod Config
pub mod Session
pub mod Receive
pub mod Frame
pub mod Send
pub mod Run
pub mod Invariant
pub mod Lifecycle
pub mod Transfer
pub mod Timeout
pub mod Replies
pub mod Simulated
mod Tests
