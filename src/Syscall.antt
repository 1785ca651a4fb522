-- ===== src/Syscall.antt =====
-- kernel/syscall: the way of a system call to its handler.
pub mod Router
pub mod Policy
mod Tests
