-- ===== src/Irq.antt =====
-- kernel/irq/irq.c: interrupts.
pub mod Table
pub mod Bindings
mod Tests
