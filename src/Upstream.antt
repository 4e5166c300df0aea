-- ===== src/Upstream.antt =====
-- internal/upstream: the endpoints behind the proxy and their health.
pub mod Endpoint
pub mod Registry
