-- ===== src/Routing.antt =====
-- internal/routing: the choice of an endpoint for a request.
pub mod RoundRobin
pub mod Swrr
pub mod Table
