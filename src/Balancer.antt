-- ===== src/Balancer.antt =====
-- The strategies that pick a backend: crates/lb-balancer/src and crates/lb-core/src/balancer.rs.
pub mod View
pub mod Strategy
pub mod Rotation
pub mod Load
pub mod Hash
pub mod Ring
pub mod Remap
pub mod Answer
pub mod Interface
