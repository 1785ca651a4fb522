-- ===== src/Ep.antt =====
-- kernel/ipc/ep.c: messages between threads over endpoints.
pub mod Object
pub mod Calls
pub mod Either
pub mod Teardown
pub mod Outcomes
pub mod Steps
pub mod Roundtrip
pub mod Destroy
pub mod Boost
pub mod Sides
pub mod Runs
mod Tests
