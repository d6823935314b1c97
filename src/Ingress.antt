-- ===== src/Ingress.antt =====
-- What a listener does with a new connection: crates/lb-server/src/proxy_protocol.rs.
pub mod ProxyProtocol
pub mod Header
