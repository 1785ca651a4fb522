-- ===== src/Lib.antt =====
-- Verification library of the ulmk microkernel.
--
-- The microkernel schedules threads, passes messages between them, gives each the memory that it may
-- touch and delivers interrupts as notifications; user components, such as the device manager, run
-- above it. A thread traps into the system call router, which checks its privilege and capabilities
-- and calls a handler; handlers change the memory areas, the timers and the queues, and the timer
-- interrupt drives the timing wheel, whose callbacks wake threads.
--
-- Files and what they model:
--   Base, Bits: the shared names, the error codes of include/ulmk/microkernel.h as 32-bit patterns,
--     C's `|`, `&` and `~` bit by bit, and rounding down to a power of two (Bits/Align).
--   Dlist: the interface of kernel/include/list.h, a copy of Zephyr's list. It is a parameter; its
--     laws say what each function is documented to do, and Dlist/Sample is a list that has them.
--   Timer: kernel/time/timer_wheel.c. Index has calc_index and calc_wheel_index, Wheel the operations
--     (add, cancel, collect_bucket, expire_list, wheel_advance_collect, tick, run_now for
--     ulmk_timer_add and so on). Expiry, Collect, Tick, Drain, Add and Deadline hold the proofs.
--     What a callback does is a parameter.
--   Sched: kernel/sched. Bitmap has the operations of bitmap_rt.c and Words its bitmap, Fifo those of
--     fifo_rt.c, Core those of sched.c over the bitmap class, as compiled for more than one CPU; the
--     calls of the port are recorded. Order is the order in which threads run; Queue, Enqueue, Take,
--     Pick, Runs and Start hold the proofs for the queues, Requeue, Switch, Dispatch and Kicks those
--     for the core. The count of leading zeros and sys_dlist_insert_at are parameters.
--   Ep: kernel/ipc/ep.c. Object has the endpoints, the threads with the memory of their buffers, and the
--     helpers; Calls, Either and Teardown have the functions ep_call_impl, ep_recv_impl, ep_reply_impl
--     and so on, without their ending _impl. Outcomes, Steps, Roundtrip, Destroy, Boost and
--     Sides hold the proofs; Runs has the calls in any order as a relation. The send and
--     receive queues are lists of Dlist; a message is a number, since it is only copied.
--   Area: kernel/mem/area.c and ulmk_kern_mem_grant of kernel/mem/mem.c. Set has the operations, with
--     the records as a store by address and the chain of a set as a list; Window has
--     ulmk_area_window. What the kernel heap returns is an argument.
--   Syscall: kernel/syscall/syscall_router.c. Router has the guards and the switch as a table of
--     cases, each with the gates that its REQUIRE_ macros stand for; Policy has what each call needs.
--   Notif: kernel/notif/notif.c. Object has notif_signal_impl, notif_wait_impl, notif_poll_impl,
--     notif_destroy_impl and the callback of a timed wait, on the objects and the fields of the
--     threads that they use; the calls of the scheduler, the endpoints and the timers, and the writes
--     to user memory, are recorded as events. Timed has notif_wait_timeout_impl, whether its timer
--     could be added being an argument. Waking, Wakeups, Steps and Listed hold lemmas; Runs has the
--     calls in any order as a relation, with waits only on objects that have no waiter, since
--     notif_wait_impl itself does not test for one.
--   Irq: kernel/irq/irq.c, the table of bindings and its handlers; the calls of the arch layer, the
--     board and notifications are recorded. Bindings takes the table as a map from
--     interrupts to bindings.
--   Sleep: kernel/time/sleep.c. Timeout has the conversion to ticks, the timeouts that threads arm on
--     the wheel of Timer, and ulmk_kern_sleep, its cancellation and its callback.
--   Device: components/ulmk_device_manager/src/registry.c. Path has the string functions, Table the
--     table operations; Registry and Unique take it as a map from paths to devices.
--
-- State is passed explicitly, and a call is one step, since the kernel serialises it by a lock. A loop
-- is structural recursion over what it walks; where that is a count, the count is the loop's own
-- bound. Three loops run on fuel: the drain of a tick, on one round for each timer that the tick took,
-- which expire_all-Drains shows to be enough; those of ep_destroy_impl, on one round for each thread
-- that waits, which destroy_refines shows to be enough; and the loop that doubles a protection
-- window, on 32 rounds, which are more than there are sizes below 2 ^ 32. Machine words are native
-- numbers with their wrap-around written out: 64 bits for the clock, 32 for addresses and sizes.
--
-- Not modelled: the creation of notifications and endpoints, what may happen while the destruction of
-- an endpoint has dropped its lock, the fault of an attached callback, the revocation of areas and
-- the other memory calls, the choice of the scheduling class, threads, the heap, the server loop of
-- the device manager, and the ports to processors and boards.
pub mod Base
pub mod Bits
pub mod Dlist
pub mod Timer
pub mod Device
pub mod Area
pub mod Syscall
pub mod Notif
pub mod Irq
pub mod Sleep
pub mod Sched
pub mod Ep
