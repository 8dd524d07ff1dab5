-- ===== src/Tests.antt =====
-- Runs of the modelled code on small inputs, and each theorem with conditions at an input where they hold.
pub mod Umux
pub mod Session
pub mod Timewheel
pub mod Drain
pub mod Uws
pub mod Buffers
pub mod Loops
