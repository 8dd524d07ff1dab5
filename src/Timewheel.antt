-- ===== src/Timewheel.antt =====
-- internal/timewheel/wheel.go: the deadlines of an event loop.
pub mod Overflow
pub mod Summary
pub mod Wheel
pub mod Advance
pub mod Plan
pub mod Runs
