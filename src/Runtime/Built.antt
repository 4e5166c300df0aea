-- ===== src/Runtime/Built.antt =====
-- What `Build` makes of a configuration that `Validate` accepts.
pub mod Endpoints
pub mod Routes
pub mod Accepted
