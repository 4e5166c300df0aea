-- ===== src/Protocol.antt =====
-- internal/protocol: the MENV v1 header, its frames, and the incremental parser.
pub mod Opcode
pub mod Errors
pub mod Bytes
pub mod Header
pub mod Frame
pub mod Parser
