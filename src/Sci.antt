-- ===== src/Sci.antt =====
-- The SCI (serial) transport, dsp/src/c2837x_block_sci.c and dsp/inc/c2837x_block_sci.h.
pub mod Types
pub mod Session
pub mod Receive
pub mod Send
pub mod Line
pub mod Conserved
pub mod Refinement
pub mod Delivered
pub mod Sent
pub mod Simulated
mod Tests
