-- ===== src/Buffer.antt =====
-- internal/buffer: the ring buffer of a connection, and the slab that lends it its bytes.
pub mod NextPow2
pub mod Slab
pub mod Ring
