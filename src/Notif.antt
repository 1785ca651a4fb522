-- ===== src/Notif.antt =====
-- kernel/notif/notif.c: notifications.
pub mod Object
pub mod Waking
pub mod Signal
pub mod Wakeups
pub mod Steps
pub mod Listed
pub mod Runs
pub mod Stranded
pub mod Timed
mod Tests
