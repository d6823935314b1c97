-- ===== src/Http.antt =====
-- Parts of the layer 7 data plane: crates/lb-proxy/src.
pub mod Percent
pub mod RoundTrip
pub mod Sticky
pub mod Cookie
