-- ===== src/Cluster.antt =====
-- The shared rate limit of a cluster: crates/lb-cluster/src/counters.rs and coordinator.rs.
pub mod Counters
pub mod Merge
pub mod Window
pub mod Protocol
pub mod Frames
