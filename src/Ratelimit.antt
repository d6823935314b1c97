-- ===== src/Ratelimit.antt =====
-- The per-key rate limiter: crates/lb-ratelimit/src/gcra.rs and crates/lb-core/src/ratelimit.rs.
pub mod Gcra
pub mod Rate
pub mod Tracking
pub mod Budget
pub mod Sweep
