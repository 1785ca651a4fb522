-- ===== src/Area.antt =====
-- kernel/mem/area.c and kernel/mem/mem.c: the ranges of memory that a thread may touch.
pub mod Set
pub mod Order
pub mod Insert
pub mod Lookup
pub mod Grant
pub mod Handout
pub mod Window
pub mod Bounds
mod Tests
