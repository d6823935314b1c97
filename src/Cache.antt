-- ===== src/Cache.antt =====
-- The response cache of crates/lb-proxy/src/cache.rs.
pub mod Store
pub mod Accounting
pub mod Service
pub mod Served
