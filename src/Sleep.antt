-- ===== src/Sleep.antt =====
-- kernel/time/sleep.c: sleep, and the timeouts that threads arm.
pub mod Timeout
pub mod Outcome
pub mod Cancel
mod Tests
