-- ===== src/Tests.antt =====
-- The theorems at concrete values.
mod Sockets
mod Samples
mod Buffers
mod Frames
mod Endpoints
mod Configs
mod Operations
mod Routes
mod Network
mod Proxying
mod Wire
mod Reactors
mod Clients
mod Operators
