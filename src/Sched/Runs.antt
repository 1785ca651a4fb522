-- ===== src/Sched/Runs.antt =====
-- Runs of kernel/sched/bitmap_rt.c from its initial state against runs of a list for each CPU that
-- is kept in the order of the priorities.
use mathlib.Core.Path.{fun_ext}
use ulmk_microkernel.Base.{
  ℕ, ◌%◌, ◌≡◌, refl, ◌∙◌, sym, ap, subst, true, false, Option, none, some, List, [], ◌∷◌, ◌==◌,
  if◌then◌else◌, put_at, Bool-cases, inl, inr, ==→eq,
}
use ulmk_microkernel.Dlist.{Dlist, mem, head?, without}
use ulmk_microkernel.Sched.Order.{insert_by}
use ulmk_microkernel.Sched.Bitmap.{
  SchedThread, RunQueues, rq_of_cpu, bitmap_rt_enqueue, bitmap_rt_dequeue, bitmap_rt_pick_next,
}
use ulmk_microkernel.Sched.Queue.{
  queue_of, IsConsistent, ready_list, priority_of, cpu_of, linked_iff,
}
use ulmk_microkernel.Sched.Enqueue.{again, inserted, enqueue_refines, enqueue-keeps}
use ulmk_microkernel.Sched.Pick.{Without, Picked, idle, picked}

pub data Op : Type 0 where
  enqueue : (t : ℕ) → Op
  dequeue : (t : ℕ) → Op
  pick_next : (me : ℕ) → Op

-- What the picks of a run give.
module _ (D : Dlist) (nr_cpus : ℕ) (clz : ℕ → ℕ) where
  unfoldable pub run : RunQueues D → List Op → List (Option ℕ)
  run s [] = []
  run s (enqueue t ∷ ops) = run (bitmap_rt_enqueue D nr_cpus s t) ops
  run s (dequeue t ∷ ops) = run (bitmap_rt_dequeue D nr_cpus s t) ops
  run s (pick_next me ∷ ops) =
      let (r, s') = bitmap_rt_pick_next D nr_cpus clz s me in r ∷ run s' ops

-- The same of a list for each CPU, in order; `thread` gives the priorities and the CPUs.
module _ (nr_cpus : ℕ) (thread : ℕ → SchedThread) where
  abbrev pub spec_enqueue : (ℕ → List ℕ) → ℕ → ℕ → List ℕ
  spec_enqueue q t =
      let c = queue_of nr_cpus thread t in
      if mem t (q c) then q else put_at q c (insert_by (λ u. (thread u).priority) t (q c))

  abbrev pub spec_pick : (ℕ → List ℕ) → Option ℕ → ℕ → List ℕ
  spec_pick q none = q
  spec_pick q (some t) = λ d. without t (q d)

  unfoldable pub spec_run : (ℕ → List ℕ) → List Op → List (Option ℕ)
  spec_run q [] = []
  spec_run q (enqueue t ∷ ops) = spec_run (spec_enqueue q t) ops
  spec_run q (dequeue t ∷ ops) = spec_run (λ d. without t (q d)) ops
  spec_run q (pick_next me ∷ ops) =
      let c = rq_of_cpu nr_cpus (me % 256) in head? (q c) ∷ spec_run (spec_pick q (head? (q c))) ops

  -- Queues that hold the lists.
  pub record Holds (D : Dlist) (s : RunQueues D) (q : ℕ → List ℕ) : Type 0 where
    pub consistent : IsConsistent D nr_cpus s
    pub priorities : priority_of D s ≡ (λ u. (thread u).priority)
    pub cpus : cpu_of D s ≡ (λ u. (thread u).cpu)
    pub lists : (c : ℕ) → ready_list D s c ≡ q c

module _ (D : Dlist) (nr_cpus : ℕ) (thread : ℕ → SchedThread) (s : RunQueues D) (q : ℕ → List ℕ)
    (h : Holds nr_cpus thread D s q) where
  same_queue : (t : ℕ) → queue_of nr_cpus s.thread t ≡ queue_of nr_cpus thread t
  same_queue t = ap (λ (f : ℕ → ℕ). rq_of_cpu nr_cpus (f t)) h.cpus

  pub enqueue-Holds :
      (t : ℕ)
      → Holds nr_cpus thread D (bitmap_rt_enqueue D nr_cpus s t) (spec_enqueue nr_cpus thread q t)
  enqueue-Holds t =
      let (ready, outcome, w) = enqueue_refines D nr_cpus s t h.consistent in
      let c = queue_of nr_cpus thread t in
      let listed : D.is_linked s.links t ≡ mem t (q c) =
        linked_iff D nr_cpus s t h.consistent
        ∙ ap (λ d. mem t (ready_list D s d)) (same_queue t)
        ∙ ap (λ (xs : List ℕ). mem t xs) (h.lists c) in
      record {
        consistent = w;
        priorities = fun_ext (λ u. (enqueue-keeps D nr_cpus s t u).0) ∙ h.priorities;
        cpus = fun_ext (λ u. (enqueue-keeps D nr_cpus s t u).1) ∙ h.cpus;
        lists = λ d. elim outcome [
          | again linked same ↦
              let there : mem t (q c) ≡ true = sym listed ∙ linked in
              same d ∙ h.lists d ∙ rw there refl
          | inserted fresh same ↦
              let absent : mem t (q c) ≡ false = sym listed ∙ fresh in
              same d ∙ rw (absent, same_queue t, h.lists d, h.priorities) (at d)
        ];
      }
    where
      at :
          (d : ℕ)
          → (if queue_of nr_cpus thread t == d
              then insert_by (λ u. (thread u).priority) t (q d)
              else q d)
            ≡ put_at q
                (queue_of nr_cpus thread t)
                (insert_by (λ u. (thread u).priority) t (q (queue_of nr_cpus thread t)))
                d
      at d = elim (Bool-cases (queue_of nr_cpus thread t == d)) [
        | inl here ↦ rw (here, ==→eq _ d here) refl
        | inr other ↦ rw other refl
      ]

  pub without-Holds :
      (s' : RunQueues D) (t : ℕ)
      → Without D nr_cpus s s' t
      → Holds nr_cpus thread D s' (λ d. without t (q d))
  without-Holds s' t o = record {
    consistent = o.consistent;
    priorities =
        ap {B = ℕ → ℕ} (λ (f : ℕ → SchedThread) u. (f u).priority) o.same_threads ∙ h.priorities;
    cpus = ap {B = ℕ → ℕ} (λ (f : ℕ → SchedThread) u. (f u).cpu) o.same_threads ∙ h.cpus;
    lists = λ d. o.order d ∙ ap (without t) (h.lists d);
  }

  pub pick-Holds :
      (c : ℕ) (r : Option ℕ) (s' : RunQueues D)
      → Picked D nr_cpus s c r s'
      → (r ≡ head? (q c)) × Holds nr_cpus thread D s' (spec_pick nr_cpus thread q (head? (q c)))
  pick-Holds c r s' (idle none_left same empty) =
      let bare : head? (q c) ≡ none = ap head? (sym (h.lists c) ∙ empty) in
      (
        none_left ∙ sym bare,
        subst
            (λ (v : RunQueues D).
              Holds nr_cpus thread D v (spec_pick nr_cpus thread q (head? (q c))))
            (sym same) (rw bare h),
      )
  pick-Holds c r s' (picked t given first o) =
      let there : head? (q c) ≡ some t = ap head? (sym (h.lists c)) ∙ first in
      (given ∙ sym there, rw there (without-Holds s' t o))
