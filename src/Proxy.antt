-- ===== src/Proxy.antt =====
-- src/proxy: the transparent proxy, from a redirected connection to its way out.
pub mod Handler
