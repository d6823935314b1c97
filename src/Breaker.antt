-- ===== src/Breaker.antt =====
-- The circuit breaker of a backend: crates/lb-healthcheck/src/circuit_breaker.rs.
pub mod Circuit
pub mod Graph
pub mod Recovery
pub mod Flapping
