-- ===== src/Sched/Dispatch.antt =====
-- What ulmk_sched_trap_dispatch of kernel/sched/sched.c does with the CPU.
use ulmk_microkernel.Base.{
  ℕ, ◌%◌, ◌≤◌, ◌<◌, ◌≡◌, refl, ◌∙◌, sym, ap, subst, Bool, true, false, ◌&&◌, ◌||◌, Option, some,
  arith, ◌==◌, put_at, put_at_self, Bool-cases, Option-cases, inl, inr, ==→eq, ==→ne,
}
use ulmk_microkernel.Dlist.{Dlist, mem}
use ulmk_microkernel.Sched.Words.{CountsZeros}
use ulmk_microkernel.Sched.Bitmap.{RunQueues, rq_of_cpu, bitmap_rt_peek_next}
use ulmk_microkernel.Sched.Queue.{queue_of, IsConsistent, ready_list, priority_of}
use ulmk_microkernel.Sched.Pick.{peek-head, nil_of}
use ulmk_microkernel.Sched.Core.{
  state_running, Machine, Percpu, percpu_of, is_some_of, kick_pending, reap_dead, requeue, stays,
  not_higher, switch_next, dispatch_running, dispatch_current, trap_dispatch,
}
use ulmk_microkernel.Sched.Requeue.{Requeued, first-least, requeue-Requeued}
use ulmk_microkernel.Sched.Switch.{Switched, Chosen, switch_next-Chosen, switch_deferred-Chosen}

-- A thread runs on CPU `me`, its queue has none of a lower priority number, and no thread is lost:
-- those that were queued, and the one that was running if it still can, run or are queued.
pub record Dispatched (D : Dlist) (nr_cpus me cur : ℕ) (q : RunQueues D) (m' : Machine D)
    : Type 0 where
  pub running : ℕ
  pub current : (m'.percpu (percpu_of nr_cpus me)).current ≡ some running
  pub state : (m'.queues.thread running).state ≡ state_running
  pub consistent : IsConsistent D nr_cpus m'.queues
  pub first :
      (u : ℕ)
      → mem u (ready_list D m'.queues (rq_of_cpu nr_cpus (me % 256))) ≡ true
      → priority_of D q running ≤ priority_of D q u
  pub others :
      (u : ℕ)
      → mem u (ready_list D q (rq_of_cpu nr_cpus (me % 256))) ≡ true
      → (u == running || mem u (ready_list D m'.queues (rq_of_cpu nr_cpus (me % 256)))) ≡ true
  pub goes_on :
      (q.thread cur).state ≡ state_running
      → (cur == running || mem cur (ready_list D m'.queues (rq_of_cpu nr_cpus (me % 256)))) ≡ true

reap_keeps :
    (D : Dlist) (nr_cpus : ℕ) (m : Machine D) (me : ℕ) (prev : Option ℕ)
    → (reap_dead D nr_cpus m me prev).queues ≡ m.queues
unfolding reap_dead
reap_keeps D nr_cpus m me prev =
    let pc = m.percpu (percpu_of nr_cpus me) in
    elim (Option-cases pc.dead_for_cleanup) [
      | inl empty ↦ rw (reap_dead, empty) refl
      | inr (dead, there) ↦ elim (Bool-cases (is_some_of prev dead)) [
        | inl own ↦ rw (reap_dead, there, own) refl
        | inr other ↦ rw (reap_dead, there, other) refl
      ]
    ]

reap_keeps_idle :
    (D : Dlist) (nr_cpus : ℕ) (m : Machine D) (me : ℕ) (prev : Option ℕ)
    → ((reap_dead D nr_cpus m me prev).percpu (percpu_of nr_cpus me)).idle
      ≡ (m.percpu (percpu_of nr_cpus me)).idle
unfolding reap_dead
reap_keeps_idle D nr_cpus m me prev =
    let pc = m.percpu (percpu_of nr_cpus me) in
    elim (Option-cases pc.dead_for_cleanup) [
      | inl empty ↦ rw (reap_dead, empty) refl
      | inr (dead, there) ↦ elim (Bool-cases (is_some_of prev dead)) [
        | inl own ↦ rw (reap_dead, there, own) refl
        | inr other ↦
            rw (reap_dead, there, other)
              (ap (λ (p : Percpu). p.idle) (put_at_self m.percpu (percpu_of nr_cpus me) _))
      ]
    ]

kick_keeps :
    (D : Dlist) (nr_cpus : ℕ) (m : Machine D) (me : ℕ)
    → ((kick_pending D nr_cpus m me).queues ≡ m.queues)
      × (((kick_pending D nr_cpus m me).percpu (percpu_of nr_cpus me)).current
          ≡ (m.percpu (percpu_of nr_cpus me)).current)
      × (((kick_pending D nr_cpus m me).percpu (percpu_of nr_cpus me)).idle
          ≡ (m.percpu (percpu_of nr_cpus me)).idle)
unfolding kick_pending
kick_keeps D nr_cpus m me =
    let pc = m.percpu (percpu_of nr_cpus me) in
    elim (Bool-cases (pc.ipi_pending == 0)) [
      | inl quiet ↦ rw (kick_pending, quiet) (refl, refl, refl)
      | inr pending ↦
          rw (kick_pending, pending)
            (
              refl,
              ap (λ (p : Percpu). p.current) (put_at_self m.percpu (percpu_of nr_cpus me) _),
              ap (λ (p : Percpu). p.idle) (put_at_self m.percpu (percpu_of nr_cpus me) _),
            )
    ]

module _ (D : Dlist) (nr_cpus : ℕ) (clz : ℕ → ℕ) (me : ℕ) (counts : CountsZeros clz)
    (some_cpu : 0 < nr_cpus) (few_cpus : nr_cpus < 256) (m : Machine D) (cur : ℕ)
    (w : IsConsistent D nr_cpus m.queues) where
  -- The running thread goes back to the queue, and then the first thread of the queue runs.
  Requeued-Dispatched :
      (q1 : RunQueues D) (m' : Machine D)
      → Requeued D nr_cpus (rq_of_cpu nr_cpus (me % 256)) cur m.queues q1
      → Chosen D nr_cpus (percpu_of nr_cpus me) (rq_of_cpu nr_cpus (me % 256)) q1 m'
      → Dispatched D nr_cpus me cur m.queues m'
  Requeued-Dispatched q1 m' r c = record {
    running = c.running;
    current = c.current;
    state = c.switched.state;
    consistent = c.switched.kept.consistent;
    first =
        λ u h. subst (λ (f : ℕ → ℕ). f c.running ≤ f u) r.kept.priorities (c.switched.first u h);
    others = λ u h. c.switched.others u (ground (arith, r.members u));
    goes_on = λ live. c.switched.others cur (ground (arith, r.members cur));
  }

  -- The running thread stays: none in the queue has a lower priority number.
  kept-Dispatched :
      (m' : Machine D)
      → m'.queues ≡ m.queues
      → (m'.percpu (percpu_of nr_cpus me)).current ≡ some cur
      → (m.queues.thread cur).state ≡ state_running
      → (want : Bool) → stays D nr_cpus clz m.queues me cur want ≡ true
      → Dispatched D nr_cpus me cur m.queues m'
  kept-Dispatched m' same current live true h = absurd (ground arith)
  kept-Dispatched m' same current live false h = record {
    running = cur;
    current = current;
    state = rw same live;
    consistent = subst (IsConsistent D nr_cpus) (sym same) w;
    first = λ u g. least u (subst (λ q. mem u (ready_list D q c) ≡ true) same g);
    others = λ u g. rw same (ground (arith, g));
    goes_on = λ alive. ground arith;
  }
    where
      c : ℕ
      c = rq_of_cpu nr_cpus (me % 256)

      least :
          (u : ℕ)
          → mem u (ready_list D m.queues c) ≡ true
          → priority_of D m.queues cur ≤ priority_of D m.queues u
      least u g =
          let peek = peek-head D nr_cpus clz m.queues me counts some_cpu few_cpus w in
          elim (Option-cases (bitmap_rt_peek_next D nr_cpus clz m.queues me)) [
            | inl e ↦ absurd (ground (arith, g, ap (mem u) (nil_of _ (sym peek ∙ e))))
            | inr (n, e) ↦
                let low = first-least D nr_cpus m.queues w c n u (sym peek ∙ e) g in
                let fits = subst (λ (o : Option ℕ). not_higher D m.queues cur o ≡ true) e h in
                elim (Bool-cases (n == cur)) [
                  | inl own ↦
                      subst (λ v. priority_of D m.queues v ≤ priority_of D m.queues u)
                        (==→eq n cur own) low
                  | inr other ↦ ground (arith, fits, low)
                ]
          ]

  dispatch_running-Dispatched :
      (want from_isr deferred : Bool) (i : ℕ)
      → (m.percpu (percpu_of nr_cpus me)).idle ≡ some i
      → (m.percpu (percpu_of nr_cpus me)).current ≡ some cur
      → (m.queues.thread cur).state ≡ state_running
      → queue_of nr_cpus m.queues.thread cur ≡ rq_of_cpu nr_cpus (me % 256)
      → (m' : Machine D) × (dispatch_running D nr_cpus clz m me cur want from_isr deferred
          ≡ some m')
        × Dispatched D nr_cpus me cur m.queues m'
  unfolding dispatch_running
  dispatch_running-Dispatched want from_isr deferred i spare current live own =
      let c = rq_of_cpu nr_cpus (me % 256) in
      let back = requeue-Requeued D nr_cpus c cur some_cpu few_cpus m.queues from_isr w own in
      let q = requeue D nr_cpus m.queues cur from_isr in
      let queued = record m { queues = q } in
      let kept = back.kept.consistent in
      let listed : mem cur (ready_list D q c) ≡ true = ground (arith, back.members cur) in
      elim (Bool-cases (stays D nr_cpus clz m.queues me cur want)) [
        | inl stay ↦ (m, rw stay refl, kept-Dispatched m refl current live want stay)
        | inr goes ↦ elim (Bool-cases (from_isr && deferred)) [
          | inl later ↦
              let (m', e, chosen) =
                switch_deferred-Chosen D nr_cpus clz me counts some_cpu few_cpus queued kept cur
                  listed in
              (m', rw (goes, later) e, Requeued-Dispatched q m' back chosen)
          | inr now ↦
              let (m', e, chosen) =
                switch_next-Chosen D nr_cpus clz me counts some_cpu few_cpus queued kept (some cur)
                  i spare in
              (m', rw (goes, now) e, Requeued-Dispatched q m' back chosen)
        ]
      ]

  -- A thread that can not go on gives its CPU to the first of the queue.
  next-Dispatched :
      (m1 : Machine D) (i : ℕ)
      → m1.queues ≡ m.queues
      → (m1.percpu (percpu_of nr_cpus me)).idle ≡ some i
      → ¬ ((m.queues.thread cur).state ≡ state_running)
      → (m' : Machine D) × (switch_next D nr_cpus clz m1 me (some cur) ≡ some m')
        × Dispatched D nr_cpus me cur m.queues m'
  next-Dispatched m1 i same spare dead =
      let kept = subst (IsConsistent D nr_cpus) (sym same) w in
      let (m', e, chosen) =
        switch_next-Chosen D nr_cpus clz me counts some_cpu few_cpus m1 kept (some cur) i spare in
      let switched =
        subst (λ q. Switched D nr_cpus (rq_of_cpu nr_cpus (me % 256)) chosen.running q m'.queues)
          same chosen.switched in
      (
        m',
        e,
        record {
          running = chosen.running;
          current = chosen.current;
          state = switched.state;
          consistent = switched.kept.consistent;
          first = switched.first;
          others = switched.others;
          goes_on = λ live. absurd (dead live);
        },
      )

module _ (D : Dlist) (nr_cpus : ℕ) (clz : ℕ → ℕ) (me : ℕ) (counts : CountsZeros clz)
    (some_cpu : 0 < nr_cpus) (few_cpus : nr_cpus < 256) (m : Machine D) (cur : ℕ)
    (w : IsConsistent D nr_cpus m.queues) where
  dispatch_current-Dispatched :
      (from_isr deferred : Bool) (i : ℕ)
      → (m.percpu (percpu_of nr_cpus me)).idle ≡ some i
      → (m.percpu (percpu_of nr_cpus me)).current ≡ some cur
      → queue_of nr_cpus m.queues.thread cur ≡ rq_of_cpu nr_cpus (me % 256)
      → (m' : Machine D) × (dispatch_current D nr_cpus clz m me from_isr deferred (some cur)
          ≡ some m')
        × Dispatched D nr_cpus me cur m.queues m'
  unfolding dispatch_current
  dispatch_current-Dispatched from_isr deferred i spare current own =
      let here = percpu_of nr_cpus me in
      let pc = m.percpu here in
      let ready = record m {
        percpu = put_at m.percpu here (record pc { needs_resched = false });
      } in
      let kept = ap (λ (p : Percpu). p.idle) (put_at_self m.percpu here _) ∙ spare in
      elim (Bool-cases ((m.queues.thread cur).state == state_running)) [
        | inr dead ↦
            let reaped = reap_dead D nr_cpus ready me (some cur) in
            let (m', e, done) =
              next-Dispatched D nr_cpus clz me counts some_cpu few_cpus m cur w reaped i
                (reap_keeps D nr_cpus ready me (some cur))
                (reap_keeps_idle D nr_cpus ready me (some cur) ∙ kept) (==→ne _ _ dead) in
            (m', rw dead e, done)
        | inl live ↦
            let shown = ap (λ (p : Percpu). p.current) (put_at_self m.percpu here _) ∙ current in
            let (m', e, done) =
              dispatch_running-Dispatched D nr_cpus clz me counts some_cpu few_cpus ready cur w
                pc.needs_resched from_isr deferred i kept shown (==→eq _ _ live) own in
            (m', rw live e, done)
      ]

-- On consistent queues, with a current thread of this CPU's queue and an idle thread of the CPU, as
-- kernel_main.c sets it, ulmk_sched_trap_dispatch switches to no NULL pointer, on the ports that defer
-- the switch and on those that do not. After it the
-- current thread of the CPU is running, no queued thread of the CPU has a lower priority number, and
-- no thread is lost: each that was queued, and the one that was running, runs or is queued.
pub dispatch_refines :
    (D : Dlist) (nr_cpus : ℕ) (clz : ℕ → ℕ) (m : Machine D) (me cur i : ℕ)
    (from_isr deferred : Bool)
    → CountsZeros clz
    → 0 < nr_cpus
    → nr_cpus < 256
    → IsConsistent D nr_cpus m.queues
    → (m.percpu (percpu_of nr_cpus me)).current ≡ some cur
    → (m.percpu (percpu_of nr_cpus me)).idle ≡ some i
    → queue_of nr_cpus m.queues.thread cur ≡ rq_of_cpu nr_cpus (me % 256)
    → (m' : Machine D) × (trap_dispatch D nr_cpus clz m me from_isr deferred ≡ some m')
      × Dispatched D nr_cpus me cur m.queues m'
unfolding trap_dispatch
dispatch_refines D nr_cpus clz m me cur i from_isr deferred counts some_cpu few_cpus w current spare
      own =
    let kicked = kick_pending D nr_cpus m me in
    let (same, shown, same_idle) = kick_keeps D nr_cpus m me in
    let w1 = subst (IsConsistent D nr_cpus) (sym same) w in
    let own1 = ap (λ (q : RunQueues D). queue_of nr_cpus q.thread cur) same ∙ own in
    let (m', e, done) =
      dispatch_current-Dispatched D nr_cpus clz me counts some_cpu few_cpus kicked cur w1 from_isr
        deferred i (same_idle ∙ spare) (shown ∙ current) own1 in
    (
      m',
      ap (dispatch_current D nr_cpus clz kicked me from_isr deferred) (shown ∙ current) ∙ e,
      subst (λ q. Dispatched D nr_cpus me cur q m') same done,
    )
