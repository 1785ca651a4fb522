-- ===== src/Notif/Runs.antt =====
-- Runs of the calls of kernel/notif/notif.c in any order.
use ulmk_microkernel.Base.{ℕ, ◌≡◌, ◌≢◌, true, none, some, bit_and}
use ulmk_microkernel.Notif.Object.{
  Kernel, notif_signal, notif_wait, notif_poll, notif_destroy, wait_timeout_cb, state_blocked,
}
use ulmk_microkernel.Notif.Wakeups.{IsServed, signal-IsServed}
use ulmk_microkernel.Notif.Steps.{poll-IsServed, wait-IsServed, destroy-IsServed, timeout-IsServed}
use ulmk_microkernel.Notif.Listed.{
  is_waiting, IsListed, signal-IsListed, poll-IsListed, wait-IsListed, destroy-IsListed,
  timeout-IsListed,
}

-- A call of the running thread, or the callback of a timeout; a thread waits on an object that has no
-- other waiter.
pub data Step : Kernel → Kernel → Type 0 where
  signal : (k : Kernel) (id bits : ℕ) → Step k (notif_signal k id bits).1
  wait :
      (k : Kernel) (cur id mask out : ℕ)
      → (k.thread cur).state ≢ state_blocked
      → (k.notif id).waiter ≡ none
      → Step k (notif_wait k (some cur) id mask out).1
  poll : (k : Kernel) (id mask : ℕ) → Step k (notif_poll k id mask).1
  destroy : (k : Kernel) (id : ℕ) → Step k (notif_destroy k id).1
  timeout : (k : Kernel) (a : ℕ) → Step k (wait_timeout_cb k a)

-- Any number of steps.
pub data Steps : Kernel → Kernel → Type 0 where
  done : (k : Kernel) → Steps k k
  next : (k l m : Kernel) → Step k l → Steps l m → Steps k m

-- Every waiter is blocked on its live object, which has no bit it waits for, and every thread that
-- waits is a waiter.
pub record IsAttended (k : Kernel) : Type 0 where
  pub served : IsServed k
  pub listed : IsListed k

Step-IsAttended : (k l : Kernel) → Step k l → IsAttended k → IsAttended l
Step-IsAttended k _ (signal _ id bits) s = record {
  served = signal-IsServed k id bits s.served;
  listed = signal-IsListed k id bits s.listed;
}
Step-IsAttended k _ (wait _ cur id mask out running free) s = record {
  served = wait-IsServed k cur id mask out running s.served;
  listed = wait-IsListed k cur id mask out free s.listed;
}
Step-IsAttended k _ (poll _ id mask) s = record {
  served = poll-IsServed k id mask s.served;
  listed = poll-IsListed k id mask s.listed;
}
Step-IsAttended k _ (destroy _ id) s = record {
  served = destroy-IsServed k id s.served;
  listed = destroy-IsListed k id s.listed;
}
Step-IsAttended k _ (timeout _ a) s = record {
  served = timeout-IsServed k a s.served;
  listed = timeout-IsListed k a s.served s.listed;
}

Steps-kept : (k l : Kernel) → Steps k l → IsAttended k → IsAttended l
Steps-kept k _ (done _) s = s
Steps-kept k l (next _ m _ step rest) s = Steps-kept m l rest (Step-IsAttended k m step s)

-- Take a state in which every waiter is blocked on a live object that has no bit it waits for, and
-- every thread that waits on an object is its waiter. Any order of signals, waits by running threads on
-- objects without a waiter, polls, destructions and timeouts leads to such a state again, and there no
-- thread that waits on an object waits for a bit that the object has.
pub Steps-IsAttended :
    (k l : Kernel)
    → Steps k l
    → IsAttended k
    → IsAttended l
      × ((t : ℕ)
          → is_waiting (l.thread t) ≡ true
          → bit_and (l.notif (l.thread t).waits_on).bits (l.thread t).notif_wait_mask ≡ 0)
Steps-IsAttended k l steps s =
    let kept = Steps-kept k l steps s in
    (kept, λ t h. (kept.served (l.thread t).waits_on t (kept.listed t h)).unmet)
