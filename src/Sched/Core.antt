-- ===== src/Sched/Core.antt =====
-- kernel/sched/sched.c over the bitmap class, as compiled for more than one CPU: which thread runs on
-- each CPU, and the switch at the end of a trap. The calls of the processor's port and of the threads
-- are recorded, the latest first; a call of ulmk_arch_ctx_switch is where the other thread goes on.
-- `none` is a NULL pointer that is read through.
use ulmk_microkernel.Base.{
  ℕ, zero, suc, ◌+◌, ◌^◌, ◌%◌, Bool, true, false, not, ◌&&◌, ◌||◌, Option, none, some, List, ◌∷◌,
  ◌==◌, if◌then◌else◌, leb, ltb, bit_and, bit_or, put_at,
}
use ulmk_microkernel.Dlist.{Dlist}
use ulmk_microkernel.Notif.Object.{state_ready}
use ulmk_microkernel.Sched.Bitmap.{
  RunQueues, bitmap_rt_enqueue, bitmap_rt_dequeue, bitmap_rt_pick_next, bitmap_rt_peek_next,
}

-- UL_THREAD_STATE_RUNNING
abbrev pub state_running : ℕ
state_running = 2

-- `struct ulmk_percpu`
pub record Percpu : Type 0 where
  pub current : Option ℕ
  pub idle : Option ℕ
  pub dead_for_cleanup : Option ℕ
  pub needs_resched : Bool
  pub online : Bool
  pub ipi_pending : ℕ

-- Calls of the port and of thread.c; `reap` frees the context and then the thread. The context that a
-- switch leaves is that of a thread, or `none` for the start-up context.
pub data SchedCall : Type 0 where
  ensure_ctx mpu_switch reap send_ipi : ℕ → SchedCall
  ctx_switch sched_switch : Option ℕ → ℕ → SchedCall
  mark_ready : SchedCall

pub record Machine (D : Dlist) : Type 0 where
  pub queues : RunQueues D
  pub percpu : ℕ → Percpu
  pub calls : List SchedCall

-- The index that ulmk_percpu and ulmk_percpu_of take.
abbrev pub percpu_of : ℕ → ℕ → ℕ
percpu_of nr_cpus cpu = if leb nr_cpus cpu then 0 else cpu

abbrev pub is_some_of : Option ℕ → ℕ → Bool
is_some_of none n = false
is_some_of (some m) n = m == n

-- The loop of ulmk_sched_kick_pending, from CPU `cpu` on.
unfoldable pub kick_from : ℕ → ℕ → ℕ → List SchedCall → List SchedCall
kick_from pending zero cpu calls = calls
kick_from pending (suc n) cpu calls =
    kick_from pending n (cpu + 1)
      (if bit_and pending (2 ^ cpu) == 0 then calls else send_ipi cpu ∷ calls)

module _ (D : Dlist) where
  abbrev pub set_state : RunQueues D → ℕ → ℕ → RunQueues D
  set_state q t state = record q {
    thread = put_at q.thread t (record (q.thread t) { state = state });
  }

  -- Is the next thread none, the running one, or one of no higher priority?
  abbrev pub not_higher : RunQueues D → ℕ → Option ℕ → Bool
  not_higher q cur none = true
  not_higher q cur (some n) = n == cur || leb (q.thread cur).priority (q.thread n).priority

  -- Does the thread go before the current one of its CPU?
  abbrev pub runs_below : RunQueues D → ℕ → Option ℕ → Bool
  runs_below q t none = true
  runs_below q t (some cur) = not (t == cur) && ltb (q.thread t).priority (q.thread cur).priority

module _ (D : Dlist) (nr_cpus : ℕ) where
  -- sched_mark_preempt_if_higher on CPU `me`
  unfoldable pub mark_preempt_if_higher : Machine D → ℕ → ℕ → Machine D
  mark_preempt_if_higher m me t =
      let th = m.queues.thread t in
      let target = percpu_of nr_cpus th.cpu in
      let pc = m.percpu target in
      let flagged =
        if runs_below D m.queues t pc.current
        then put_at m.percpu target (record pc { needs_resched = true })
        else m.percpu in
      let here = percpu_of nr_cpus me in
      if not (th.cpu == me % 256) && pc.online
      then record m {
        percpu = put_at flagged here (record (flagged here) {
          ipi_pending = bit_or (flagged here).ipi_pending (2 ^ th.cpu);
        });
      }
      else record m { percpu = flagged }

  unfoldable pub sched_enqueue : Machine D → ℕ → ℕ → Machine D
  sched_enqueue m me t =
      mark_preempt_if_higher (record m { queues = bitmap_rt_enqueue D nr_cpus m.queues t }) me t

  unfoldable pub sched_dequeue : Machine D → ℕ → Machine D
  sched_dequeue m t = record m { queues = bitmap_rt_dequeue D nr_cpus m.queues t }

  unfoldable pub request_resched : Machine D → ℕ → Machine D
  request_resched m me =
      let here = percpu_of nr_cpus me in
      record m { percpu = put_at m.percpu here (record (m.percpu here) { needs_resched = true }) }

  unfoldable pub kick_pending : Machine D → ℕ → Machine D
  unfolding kick_from
  kick_pending m me =
      let here = percpu_of nr_cpus me in
      let pc = m.percpu here in
      if pc.ipi_pending == 0 then m else record m {
        percpu = put_at m.percpu here (record pc { ipi_pending = 0 });
        calls = kick_from pc.ipi_pending nr_cpus 0 m.calls;
      }

  unfoldable pub reap_dead : Machine D → ℕ → Option ℕ → Machine D
  reap_dead m me prev =
      let here = percpu_of nr_cpus me in
      let pc = m.percpu here in
      elim pc.dead_for_cleanup [
        | none ↦ m
        | some dead ↦ if is_some_of prev dead then m else record m {
          percpu = put_at m.percpu here (record pc { dead_for_cleanup = none });
          calls = reap dead ∷ m.calls;
        }
      ]

  unfoldable pub set_dead_for_cleanup : Machine D → ℕ → Option ℕ → Machine D
  set_dead_for_cleanup m me th =
      let here = percpu_of nr_cpus me in
      let pc = m.percpu here in
      let parked = put_at m.percpu here (record pc { dead_for_cleanup = th }) in
      elim pc.dead_for_cleanup [
        | none ↦ record m { percpu = parked }
        | some dead ↦ record m { percpu = parked; calls = reap dead ∷ m.calls }
      ]

  -- sched_switch_to of a thread that there is: what is left of it once `next` is chosen.
  abbrev pub switch_onto : Machine D → ℕ → Option ℕ → ℕ → Machine D
  switch_onto m me prev n =
      let here = percpu_of nr_cpus me in
      let running = set_state D m.queues n state_running in
      let percpu = put_at m.percpu here (record (m.percpu here) { current = some n }) in
      if is_some_of prev n
      then record {
        queues =
            if D.is_linked running.links n
            then set_state D (bitmap_rt_dequeue D nr_cpus running n) n state_running
            else running;
        percpu = percpu;
        calls = ensure_ctx n ∷ m.calls;
      }
      else record {
        queues = running;
        percpu = percpu;
        calls = ctx_switch prev n ∷ mpu_switch n ∷ ensure_ctx n ∷ m.calls;
      }

  -- The context of NULL can not be ensured.
  abbrev pub switch_or_null : Machine D → ℕ → Option ℕ → Option ℕ → Option (Machine D)
  switch_or_null m me prev none = none
  switch_or_null m me prev (some n) = some (switch_onto m me prev n)

  -- sched_switch_to
  unfoldable pub switch_to : Machine D → ℕ → Option ℕ → Option ℕ → Option (Machine D)
  switch_to m me prev none = switch_or_null m me prev (m.percpu (percpu_of nr_cpus me)).idle
  switch_to m me prev (some n) = switch_or_null m me prev (some n)

  -- The running thread goes back to its queue: in a trap handler it is made ready first.
  unfoldable pub requeue : RunQueues D → ℕ → Bool → RunQueues D
  requeue q cur from_isr =
      let first = if from_isr then set_state D q cur state_ready else q in
      let off =
        if D.is_linked first.links cur then bitmap_rt_dequeue D nr_cpus first cur else first in
      let last = if from_isr then off else set_state D off cur state_ready in
      bitmap_rt_enqueue D nr_cpus last cur

module _ (D : Dlist) (nr_cpus : ℕ) (clz : ℕ → ℕ) where
  -- `sched_switch_to(cur, sched_class->pick_next())`
  abbrev pub switch_next : Machine D → ℕ → Option ℕ → Option (Machine D)
  switch_next m me prev =
      let (next, queues) = bitmap_rt_pick_next D nr_cpus clz m.queues me in
      switch_to D nr_cpus (record m { queues = queues }) me prev next

  unfoldable pub resched : Machine D → ℕ → Option (Machine D)
  unfolding switch_to reap_dead
  resched m me =
      let here = percpu_of nr_cpus me in
      let pc = m.percpu here in
      let ready = record m {
        percpu = put_at m.percpu here (record pc { needs_resched = false });
      } in
      switch_next (reap_dead D nr_cpus ready me pc.current) me pc.current

  -- The switch of the ports that defer it to the return from the trap.
  abbrev pub deferred_onto : Machine D → ℕ → ℕ → ℕ → Machine D
  deferred_onto m me cur n =
      let here = percpu_of nr_cpus me in
      record {
        queues = set_state D m.queues n state_running;
        percpu = put_at m.percpu here (record (m.percpu here) { current = some n });
        calls = sched_switch (some cur) n ∷ mpu_switch n ∷ ensure_ctx n ∷ m.calls;
      }

  abbrev pub deferred_after : Machine D → ℕ → ℕ → Option ℕ → Option (Machine D)
  deferred_after m me cur none = none
  deferred_after m me cur (some n) = some (deferred_onto m me cur n)

  abbrev pub switch_deferred : Machine D → ℕ → ℕ → Option (Machine D)
  switch_deferred m me cur =
      let (next, queues) = bitmap_rt_pick_next D nr_cpus clz m.queues me in
      deferred_after (record m { queues = queues }) me cur next

  -- Does the running thread stay? `want` is the flag needs_resched.
  abbrev pub stays : RunQueues D → ℕ → ℕ → Bool → Bool
  stays q me cur want =
      if want then false else not_higher D q cur (bitmap_rt_peek_next D nr_cpus clz q me)

  -- ulmk_sched_trap_dispatch of a running thread; `deferred` is
  -- ulmk_arch_sched_isr_preempt_deferred.
  unfoldable pub dispatch_running : Machine D → ℕ → ℕ → Bool → Bool → Bool → Option (Machine D)
  unfolding requeue switch_to
  dispatch_running m me cur want from_isr deferred =
      let queued = record m { queues = requeue D nr_cpus m.queues cur from_isr } in
      if stays m.queues me cur want
      then some m
      else (if from_isr && deferred
          then switch_deferred queued me cur
          else switch_next queued me (some cur))

  -- ulmk_sched_trap_dispatch with the current thread of the CPU, once the other CPUs are told.
  unfoldable pub dispatch_current : Machine D → ℕ → Bool → Bool → Option ℕ → Option (Machine D)
  unfolding reap_dead switch_to dispatch_running
  dispatch_current m me from_isr deferred none = some m
  dispatch_current m me from_isr deferred (some cur) =
      let here = percpu_of nr_cpus me in
      let pc = m.percpu here in
      let ready = record m {
        percpu = put_at m.percpu here (record pc { needs_resched = false });
      } in
      if not ((m.queues.thread cur).state == state_running)
      then switch_next (reap_dead D nr_cpus ready me (some cur)) me (some cur)
      else dispatch_running ready me cur pc.needs_resched from_isr deferred

  unfoldable pub trap_dispatch : Machine D → ℕ → Bool → Bool → Option (Machine D)
  unfolding kick_pending dispatch_current
  trap_dispatch m me from_isr deferred =
      let kicked = kick_pending D nr_cpus m me in
      dispatch_current kicked me from_isr deferred (kicked.percpu (percpu_of nr_cpus me)).current

  -- ulmk_sched_start
  unfoldable pub start : Machine D → ℕ → Option (Machine D)
  start m me =
      let here = percpu_of nr_cpus me in
      let (first, queues) = bitmap_rt_pick_next D nr_cpus clz m.queues me in
      elim first [
        | none ↦ none
        | some n ↦
            let shown =
              if me == 0 then ensure_ctx n ∷ m.calls else mark_ready ∷ ensure_ctx n ∷ m.calls in
            some (record {
              queues = set_state D queues n state_running;
              percpu =
                  put_at m.percpu here (record (m.percpu here) { current = some n; online = true });
              calls = ctx_switch none n ∷ mpu_switch n ∷ shown;
            })
      ]
