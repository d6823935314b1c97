-- ===== src/Health.antt =====
-- The active health checks of crates/lb-healthcheck/src/active.rs.
pub mod Active
pub mod Thresholds
pub mod Outlier
pub mod Ejection
pub mod Agreement
pub mod Release
