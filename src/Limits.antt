-- ===== src/Limits.antt =====
-- Caps on the connections of one source: crates/lb-server/src/limits.rs and the peers' part of
-- crates/lb-cluster/src/gossip.rs.
pub mod PerIp
pub mod Balance
pub mod Adaptive
pub mod InFlight
pub mod Gate
pub mod Queue
