-- ===== src/Umux.antt =====
-- The umux package: one connection carries many flow-controlled streams.
pub mod Frame
pub mod Window
pub mod Inbound
pub mod Outbound
pub mod Inbox
pub mod Opening
pub mod Drain
