-- ===== src/Uws.antt =====
-- The WebSocket wire codec of uws/internal/frame.
pub mod Mask
pub mod Frame
pub mod Assembler
pub mod Parser
