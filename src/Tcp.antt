-- ===== src/Tcp.antt =====
-- The layer 4 data plane: crates/lb-tcp/src/session.rs.
pub mod Session
pub mod Dial
pub mod Picked
pub mod Guards
pub mod Connections
pub mod Counts
pub mod Refresh
