-- ===== src/Pool.antt =====
-- The pool of backends: crates/lb-core/src/backend.rs and crates/lb-core/src/pool.rs.
pub mod Backend
pub mod BackendMap
pub mod State
pub mod Ops
pub mod Resolve
pub mod Eligible
pub mod Linked
pub mod Drain
pub mod Flags
pub mod Tiers
pub mod Placed
pub mod Resolved
pub mod Unchanged
pub mod InFlight
pub mod Requests
