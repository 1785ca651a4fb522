-- ===== src/Sched/Switch.antt =====
-- The switches of kernel/sched/sched.c: the first thread of the CPU's queue runs.
use ulmk_microkernel.Base.{
  ℕ, ◌%◌, ◌≤◌, ◌<◌, ◌≡◌, refl, ◌∙◌, sym, ap, subst, true, ◌||◌, Option, none, some, arith, ◌==◌,
  put_at_self, Bool-cases, inl, inr,
}
use ulmk_microkernel.Dlist.{Dlist, mem, without, mem-without}
use ulmk_microkernel.Sched.Words.{CountsZeros}
use ulmk_microkernel.Sched.Bitmap.{
  SchedThread, RunQueues, rq_of_cpu, bitmap_rt_pick_next, bitmap_rt_dequeue,
}
use ulmk_microkernel.Sched.Queue.{IsConsistent, ready_list, priority_of}
use ulmk_microkernel.Sched.Pick.{Picked, idle, picked, pick_next_refines, dequeue_refines}
use ulmk_microkernel.Sched.Core.{
  state_running, Machine, Percpu, percpu_of, is_some_of, set_state, switch_to, switch_onto,
  switch_or_null, switch_next, switch_deferred, deferred_onto, deferred_after,
}
use ulmk_microkernel.Sched.Requeue.{
  Kept, Kept-trans, Kept-self, set_state-Kept, Without-Kept, first-least, restate_list,
}

-- The thread at `n` runs: it is taken off the queue of CPU `c`, if it is there at all.
record Runs (D : Dlist) (nr_cpus c n : ℕ) (q q' : RunQueues D) : Type 0 where
  kept : Kept D nr_cpus q q'
  state : (q'.thread n).state ≡ state_running
  only : (u : ℕ) → mem u (ready_list D q' c) ≡ true → mem u (ready_list D q c) ≡ true
  others : (u : ℕ) → mem u (ready_list D q c) ≡ true → (u == n || mem u (ready_list D q' c)) ≡ true

-- The thread at `n` runs, no thread of a lower priority number is left in the queue of CPU `c`, and
-- of those that were there only it is gone.
pub record Switched (D : Dlist) (nr_cpus c n : ℕ) (q q' : RunQueues D) : Type 0 where
  pub kept : Kept D nr_cpus q q'
  pub state : (q'.thread n).state ≡ state_running
  pub first : (u : ℕ) → mem u (ready_list D q' c) ≡ true → priority_of D q n ≤ priority_of D q u
  pub others :
      (u : ℕ) → mem u (ready_list D q c) ≡ true → (u == n || mem u (ready_list D q' c)) ≡ true

module _ (D : Dlist) (nr_cpus c : ℕ) (some_cpu : 0 < nr_cpus) (few_cpus : nr_cpus < 256) where
  same_list :
      (q : RunQueues D) (n : ℕ) → ready_list D (set_state D q n state_running) c ≡ ready_list D q c
  same_list q n = restate_list D nr_cpus c n some_cpu few_cpus q n state_running

  running-Runs :
      (q : RunQueues D) (n : ℕ)
      → IsConsistent D nr_cpus q
      → Runs D nr_cpus c n q (set_state D q n state_running)
  running-Runs q n w = record {
    kept = set_state-Kept D nr_cpus q w n state_running;
    state = ap (λ (t : SchedThread). t.state) (put_at_self q.thread n _);
    only = λ u m. sym (ap (mem u) (same_list q n)) ∙ m;
    others = λ u m. ground (arith, m, ap (mem u) (same_list q n));
  }

  dequeued-Runs :
      (q : RunQueues D) (n : ℕ)
      → IsConsistent D nr_cpus q
      → Runs D nr_cpus c n q (
          set_state D
            (bitmap_rt_dequeue D nr_cpus (set_state D q n state_running) n)
            n
            state_running)
  dequeued-Runs q n w =
      let one = set_state D q n state_running in
      let kept_one = set_state-Kept D nr_cpus q w n state_running in
      let gone = dequeue_refines D nr_cpus one n some_cpu few_cpus kept_one.consistent in
      let two = bitmap_rt_dequeue D nr_cpus one n in
      let kept_two =
        Kept-trans D nr_cpus q one two kept_one
          (Without-Kept D nr_cpus one kept_one.consistent two n gone) in
      let list : ready_list D (set_state D two n state_running) c ≡ without n (ready_list D q c) =
        same_list two n ∙ gone.order c ∙ ap (without n) (same_list q n) in
      record {
        kept =
            Kept-trans D nr_cpus q two _ kept_two
              (set_state-Kept D nr_cpus two kept_two.consistent n state_running);
        state = ap (λ (t : SchedThread). t.state) (put_at_self two.thread n _);
        only = λ u m. ground (arith, m, ap (mem u) list, mem-without u n (ready_list D q c));
        others = λ u m. ground (arith, m, ap (mem u) list, mem-without u n (ready_list D q c));
      }

  module _ (q : RunQueues D) (w : IsConsistent D nr_cpus q) where
    Picked-Switched :
        (r : Option ℕ) (q1 q' : RunQueues D) (n : ℕ)
        → Picked D nr_cpus q c r q1
        → ((t : ℕ) → r ≡ some t → t ≡ n)
        → Runs D nr_cpus c n q1 q'
        → Switched D nr_cpus c n q q'
    Picked-Switched r q1 q' n (idle none_left same empty) own runs =
        let bare = ap (λ (v : RunQueues D). ready_list D v c) same ∙ empty in
        record {
          kept =
              Kept-trans D nr_cpus q q1 q'
                (subst (Kept D nr_cpus q) (sym same) (Kept-self D nr_cpus q w)) runs.kept;
          state = runs.state;
          first = λ u m. absurd (ground (arith, runs.only u m, ap (mem u) bare));
          others = λ u m. absurd (ground (arith, ap (mem u) empty));
        }
    Picked-Switched r q1 q' n (picked t given first o) own runs =
        let at : t ≡ n = own t given in
        let gone = λ (u : ℕ). ap (mem u) (o.order c) ∙ mem-without u t (ready_list D q c) in
        record {
          kept = Kept-trans D nr_cpus q q1 q' (Without-Kept D nr_cpus q w q1 t o) runs.kept;
          state = runs.state;
          first = λ u m.
              subst (λ v. priority_of D q v ≤ priority_of D q u) at
                (first-least D nr_cpus q w c t u first (ground (arith, runs.only u m, gone u)));
          others = λ u m. elim (Bool-cases (u == n)) [
            | inl e ↦ rw e refl
            | inr e ↦ runs.others u (ground (arith, m, gone u, at, e))
          ];
        }

Picked-IsConsistent :
    (D : Dlist) (nr_cpus : ℕ) (s : RunQueues D) (c : ℕ) (r : Option ℕ) (s' : RunQueues D)
    → IsConsistent D nr_cpus s
    → Picked D nr_cpus s c r s'
    → IsConsistent D nr_cpus s'
Picked-IsConsistent D nr_cpus s c r s' w (idle none_left same empty) =
    subst (IsConsistent D nr_cpus) (sym same) w
Picked-IsConsistent D nr_cpus s c r s' w (picked t given first o) = o.consistent

abbrev from_some : ℕ → Option ℕ → ℕ
from_some d none = d
from_some d (some x) = x

-- On the CPU of index `here` a thread runs that comes first in the order of queue `c`.
pub record Chosen (D : Dlist) (nr_cpus here c : ℕ) (q : RunQueues D) (m' : Machine D) : Type 0 where
  pub running : ℕ
  pub current : (m'.percpu here).current ≡ some running
  pub switched : Switched D nr_cpus c running q m'.queues

module _ (D : Dlist) (nr_cpus : ℕ) (clz : ℕ → ℕ) (me : ℕ) (counts : CountsZeros clz)
    (some_cpu : 0 < nr_cpus) (few_cpus : nr_cpus < 256) (m : Machine D)
    (w : IsConsistent D nr_cpus m.queues) where
  -- The queue and the index of CPU `me`.
  abbrev own_queue : ℕ
  own_queue = rq_of_cpu nr_cpus (me % 256)

  abbrev own_index : ℕ
  own_index = percpu_of nr_cpus me

  onto-Chosen :
      (q : RunQueues D) (r prev : Option ℕ) (n : ℕ)
      → Picked D nr_cpus m.queues own_queue r q
      → ((t : ℕ) → r ≡ some t → t ≡ n)
      → IsConsistent D nr_cpus q
      → Chosen D nr_cpus own_index own_queue m.queues
          (switch_onto D nr_cpus (record m { queues = q }) me prev n)
  onto-Chosen q r prev n outcome own kept =
      let runs = running-Runs D nr_cpus own_queue some_cpu few_cpus q n kept in
      let off = dequeued-Runs D nr_cpus own_queue some_cpu few_cpus q n kept in
      let now = λ (v : RunQueues D) (runs : Runs D nr_cpus own_queue n q v).
        Picked-Switched D nr_cpus own_queue some_cpu few_cpus m.queues w r q v n outcome own runs in
      let shown = ap (λ (p : Percpu). p.current) (put_at_self m.percpu own_index _) in
      elim (Bool-cases (is_some_of prev n)) [
        | inr other ↦ rw other (record { running = n; current = shown; switched = now _ runs })
        | inl same ↦ elim (Bool-cases (D.is_linked (set_state D q n state_running).links n)) [
          | inl on ↦ rw (same, on) (record { running = n; current = shown; switched = now _ off })
          | inr not_on ↦
              rw (same, not_on) (record { running = n; current = shown; switched = now _ runs })
        ]
      ]

  to-Chosen :
      (q : RunQueues D) (r prev : Option ℕ) (i : ℕ)
      → (m.percpu own_index).idle ≡ some i
      → Picked D nr_cpus m.queues own_queue r q
      → IsConsistent D nr_cpus q
      → (m' : Machine D) × (switch_to D nr_cpus (record m { queues = q }) me prev r ≡ some m')
        × Chosen D nr_cpus own_index own_queue m.queues m'
  unfolding switch_to
  to-Chosen q none prev i spare outcome kept = (
    switch_onto D nr_cpus (record m { queues = q }) me prev i,
    ap (switch_or_null D nr_cpus (record m { queues = q }) me prev) spare,
    onto-Chosen q none prev i outcome (λ t e. absurd (ground arith)) kept,
  )
  to-Chosen q (some n) prev i spare outcome kept = (
    switch_onto D nr_cpus (record m { queues = q }) me prev n,
    refl,
    onto-Chosen q (some n) prev n outcome (λ t e. sym (ap (from_some n) e)) kept,
  )

  -- With an idle thread to fall back on, the switch reads through no NULL pointer.
  pub switch_next-Chosen :
      (prev : Option ℕ) (i : ℕ)
      → (m.percpu own_index).idle ≡ some i
      → (m' : Machine D) × (switch_next D nr_cpus clz m me prev ≡ some m')
        × Chosen D nr_cpus own_index own_queue m.queues m'
  switch_next-Chosen prev i spare =
      let (r, q) = bitmap_rt_pick_next D nr_cpus clz m.queues me in
      let outcome = (pick_next_refines D nr_cpus clz m.queues me counts some_cpu few_cpus w).0 in
      to-Chosen q r prev i spare outcome
        (Picked-IsConsistent D nr_cpus m.queues own_queue r q w outcome)

  deferred-Chosen :
      (cur : ℕ) (q : RunQueues D) (r : Option ℕ)
      → mem cur (ready_list D m.queues own_queue) ≡ true
      → Picked D nr_cpus m.queues own_queue r q
      → (m' : Machine D) × (deferred_after D nr_cpus clz (record m { queues = q }) me cur r
          ≡ some m')
        × Chosen D nr_cpus own_index own_queue m.queues m'
  deferred-Chosen cur q r there (idle none_left same empty) =
      absurd (ground (arith, ap (mem cur) empty))
  deferred-Chosen cur q r there (picked n given first o) =
      let outcome = picked n given first o in
      (
        deferred_onto D nr_cpus clz (record m { queues = q }) me cur n,
        rw given refl,
        record {
          running = n;
          current = ap (λ (p : Percpu). p.current) (put_at_self m.percpu own_index _);
          switched =
              Picked-Switched D nr_cpus own_queue some_cpu few_cpus m.queues w r q _ n outcome
                (λ t e. ap (from_some n) (sym e ∙ given))
                (running-Runs D nr_cpus own_queue some_cpu few_cpus q n o.consistent);
        },
      )

  -- With a thread in the queue, the deferred switch reads through no NULL pointer.
  pub switch_deferred-Chosen :
      (cur : ℕ)
      → mem cur (ready_list D m.queues own_queue) ≡ true
      → (m' : Machine D) × (switch_deferred D nr_cpus clz m me cur ≡ some m')
        × Chosen D nr_cpus own_index own_queue m.queues m'
  switch_deferred-Chosen cur there =
      let (r, q) = bitmap_rt_pick_next D nr_cpus clz m.queues me in
      deferred-Chosen cur q r there
        (pick_next_refines D nr_cpus clz m.queues me counts some_cpu few_cpus w).0
