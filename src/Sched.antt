-- ===== src/Sched.antt =====
-- kernel/sched: the run queues, as each policy keeps them, and the switches between threads.
pub mod Words
pub mod Bitmap
pub mod Order
pub mod Queue
pub mod Enqueue
pub mod Take
pub mod Pick
pub mod Runs
pub mod Start
pub mod Fifo
pub mod Core
pub mod Requeue
pub mod Switch
pub mod Dispatch
pub mod Kicks
mod Tests
