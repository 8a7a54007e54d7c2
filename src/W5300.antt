-- ===== src/W5300.antt =====
-- The W5300 Ethernet controller: registers, access to them, sockets and the TCP transport.
pub mod Registers
pub mod Hal
pub mod Inbound
pub mod Outbound
pub mod Socket
pub mod Channel
pub mod Udp
pub mod Device
pub mod Simulated
mod Tests
