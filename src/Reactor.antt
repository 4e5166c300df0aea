-- ===== src/Reactor.antt =====
-- internal/reactor: the event loop that moves frames between clients and upstreams.
pub mod Platform
pub mod Conn
pub mod Exec
pub mod Write
pub mod Payload
pub mod Dispatch
pub mod Read
pub mod Loop
pub mod Tidy
pub mod Closing
pub mod Listed
pub mod Stream
pub mod Blocking
