-- ===== src/Sleep/Timeout.antt =====
-- kernel/time/sleep.c. A thread and its `struct ulmk_timeout` have one address. The tick rate,
-- ULMK_CONFIG_TICK_HZ, is an argument. Calls of the scheduler are recorded, the latest first.
use ulmk_microkernel.Base.{
  put_at, ℕ, ◌+◌, ◌*◌, ◌/◌, Bool, not, ◌&&◌, ◌||◌, Option, none, some, List, ◌∷◌, ltb, ◌==◌,
  if◌then◌else◌, ok, einval, esrch, ecanceled,
}
use ulmk_microkernel.Dlist.{Dlist}
use ulmk_microkernel.Timer.Index.{timeout_max}
use ulmk_microkernel.Timer.Wheel.{Timers, add, cancel}
use ulmk_microkernel.Notif.Object.{state_ready, state_blocked, blocked_none}

-- ulmk_ms_to_ticks; the product of two 32-bit words does not wrap in 64 bits.
unfoldable pub ms_to_ticks : ℕ → ℕ → ℕ
ms_to_ticks hz ms =
    let rounded = (ms * hz + 999) / 1000 in
    let ticks = if rounded == 0 then 1 else rounded in if ltb timeout_max ticks then 0 else ticks

-- UL_BLOCKED_SLEEP
abbrev pub blocked_sleep : ℕ
blocked_sleep = 6

-- The fields of a thread that sleep reads and writes.
pub record Sleeper : Type 0 where
  pub state : ℕ
  pub reason : ℕ
  pub block_status : ℕ

-- Calls of the scheduler.
pub data SchedCall : Type 0 where
  sched_enqueue : ℕ → SchedCall
  sched_dequeue : ℕ → SchedCall
  request_resched : SchedCall
  kick_pending : SchedCall

module _ (D : Dlist) where
  -- ulmk_timeout_arm, for a thread that is not NULL
  unfoldable pub timeout_arm : ℕ → Timers D → ℕ → ℕ → ℕ → ℕ × Timers D
  timeout_arm hz t th ms cb =
      let ticks = ms_to_ticks hz ms in
      let off = (cancel D t th).1 in
      if cb == 0 || ticks == 0
      then (einval, t)
      else add D (record off { cb = put_at off.cb th cb }) th ticks

  -- ulmk_timeout_disarm, for a thread that is not NULL
  unfoldable pub timeout_disarm : Timers D → ℕ → Timers D
  timeout_disarm t th = let off = (cancel D t th).1 in record off { cb = put_at off.cb th 0 }

  pub record Sleepers : Type 0 where
    pub timers : Timers D
    pub thread : ℕ → Sleeper
    pub calls : List SchedCall

  -- Is the thread blocked in a sleep?
  abbrev pub is_asleep : Sleepers → ℕ → Bool
  is_asleep k th = (k.thread th).state == state_blocked && (k.thread th).reason == blocked_sleep

  -- sleep_timeout_cb
  unfoldable pub sleep_timeout_cb : Sleepers → ℕ → Sleepers
  sleep_timeout_cb k th = if not (is_asleep k th) then k else record k {
    thread =
        put_at k.thread th
          (record { state = state_ready; reason = blocked_none; block_status = ok });
    calls = kick_pending ∷ request_resched ∷ sched_enqueue th ∷ k.calls;
  }

  -- ulmk_kern_sleep of the thread `cur`; `cb` is the address of sleep_timeout_cb.
  unfoldable pub kern_sleep : ℕ → ℕ → Sleepers → Option ℕ → ℕ → ℕ × Sleepers
  kern_sleep hz cb k none ms = (einval, k)
  kern_sleep hz cb k (some cur) ms =
      let asleep =
        put_at k.thread cur
          (record { state = state_blocked; reason = blocked_sleep; block_status = ok }) in
      let (rc, timers) = timeout_arm hz k.timers cur ms cb in
      let calls = sched_dequeue cur ∷ k.calls in
      if ms_to_ticks hz ms == 0
      then (einval, k)
      else (if rc == ok then (ok, record { timers = timers; thread = asleep; calls = calls }) else (
        einval,
        record {
          timers = timers;
          thread =
              put_at asleep cur
                (record { state = state_ready; reason = blocked_none; block_status = ok });
          calls = kick_pending ∷ sched_enqueue cur ∷ calls;
        },
      ))

  -- ulmk_kern_sleep_cancel; `th` is what ulmk_thread_by_tid returns.
  unfoldable pub sleep_cancel : Sleepers → Option ℕ → ℕ × Sleepers
  sleep_cancel k none = (esrch, k)
  sleep_cancel k (some th) = if not (is_asleep k th) then (einval, k) else (
    ok,
    record {
      timers = timeout_disarm k.timers th;
      thread =
          put_at k.thread th
            (record { state = state_ready; reason = blocked_none; block_status = ecanceled });
      calls = kick_pending ∷ request_resched ∷ sched_enqueue th ∷ k.calls;
    },
  )
