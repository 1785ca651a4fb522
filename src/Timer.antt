-- ===== src/Timer.antt =====
-- kernel/time/timer_wheel.c and kernel/include/ulmk_timer.h: the timing wheel.
pub mod Index
pub mod Expiry
pub mod Wheel
pub mod Places
pub mod Collect
pub mod Tick
pub mod Drain
pub mod Add
pub mod Deadline
mod Tests
