-- ===== src/Sched/Requeue.antt =====
-- Steps of kernel/sched/sched.c on the run queues: a state that is set, and the running thread that
-- goes back to its queue.
use mathlib.Core.Path.{fun_ext}
use ulmk_microkernel.Base.{
  ℕ, ◌≤◌, ◌<◌, ◌≡◌, refl, ◌∙◌, sym, ap, Bool, true, false, ◌||◌, some, List, [], ◌∷◌, arith, ◌==◌,
  if◌then◌else◌, Bool-cases, inl, inr, ==→eq, eq→==,
}
use ulmk_microkernel.Dlist.{Dlist, mem, head?, mem-without}
use ulmk_microkernel.Notif.Object.{state_ready}
use ulmk_microkernel.Sched.Order.{insert_by, head-least}
use ulmk_microkernel.Sched.Bitmap.{
  SchedThread, RunQueues, level_head, rq_of_cpu, bitmap_rt_enqueue, bitmap_rt_dequeue,
}
use ulmk_microkernel.Sched.Queue.{
  queue_of, IsConsistent, ready_list, priority_of, cpu_of, linked_iff, restated_keeps,
  restate-IsConsistent, levels-AllOf,
}
use ulmk_microkernel.Sched.Enqueue.{again, inserted, enqueue_refines, enqueue-keeps}
use ulmk_microkernel.Sched.Pick.{Without, dequeue_refines}
use ulmk_microkernel.Sched.Core.{set_state, requeue}

-- Consistent queues of threads that have the priorities and the CPUs of the former.
pub record Kept (D : Dlist) (nr_cpus : ℕ) (q q' : RunQueues D) : Type 0 where
  pub consistent : IsConsistent D nr_cpus q'
  pub priorities : priority_of D q' ≡ priority_of D q
  pub cpus : cpu_of D q' ≡ cpu_of D q

pub mem-insert_by :
    (prio : ℕ → ℕ) (t u : ℕ) (xs : List ℕ) → mem u (insert_by prio t xs) ≡ (u == t || mem u xs)
mem-insert_by prio t u [] = ground arith
mem-insert_by prio t u (x ∷ xs) = ground (arith, mem-insert_by prio t u xs)

module _ (D : Dlist) (nr_cpus : ℕ) where
  pub Kept-trans :
      (a b c : RunQueues D) → Kept D nr_cpus a b → Kept D nr_cpus b c → Kept D nr_cpus a c
  Kept-trans a b c x y = record {
    consistent = y.consistent;
    priorities = y.priorities ∙ x.priorities;
    cpus = y.cpus ∙ x.cpus;
  }

  pub Kept-self : (q : RunQueues D) → IsConsistent D nr_cpus q → Kept D nr_cpus q q
  Kept-self q w = record { consistent = w; priorities = refl; cpus = refl }

  module _ (q : RunQueues D) (w : IsConsistent D nr_cpus q) where
    pub set_state-Kept : (t state : ℕ) → Kept D nr_cpus q (set_state D q t state)
    set_state-Kept t state = record {
      consistent = restate-IsConsistent D nr_cpus q t state w;
      priorities = fun_ext (λ u. (restated_keeps q.thread t state u).0);
      cpus = fun_ext (λ u. (restated_keeps q.thread t state u).1);
    }

    pub Without-Kept : (q' : RunQueues D) (t : ℕ) → Without D nr_cpus q q' t → Kept D nr_cpus q q'
    Without-Kept q' t o = record {
      consistent = o.consistent;
      priorities = ap {B = ℕ → ℕ} (λ (f : ℕ → SchedThread) u. (f u).priority) o.same_threads;
      cpus = ap {B = ℕ → ℕ} (λ (f : ℕ → SchedThread) u. (f u).cpu) o.same_threads;
    }

    pub enqueue-Kept : (t : ℕ) → Kept D nr_cpus q (bitmap_rt_enqueue D nr_cpus q t)
    enqueue-Kept t = record {
      consistent = (enqueue_refines D nr_cpus q t w).2;
      priorities = fun_ext (λ u. (enqueue-keeps D nr_cpus q t u).0);
      cpus = fun_ext (λ u. (enqueue-keeps D nr_cpus q t u).1);
    }

    -- Of the CPU's threads the first has the least priority number.
    pub first-least :
        (c t u : ℕ)
        → head? (ready_list D q c) ≡ some t
        → mem u (ready_list D q c) ≡ true
        → priority_of D q t ≤ priority_of D q u
    unfolding ready_list
    first-least c t u =
        head-least (priority_of D q) (λ p. D.nodes q.links (level_head c p)) 256 0 t u
          (λ p h. levels-AllOf D nr_cpus q w c p h)

    -- After it is enqueued a thread is in the order of its CPU, with those that were there.
    mem-enqueue :
        (c t u : ℕ)
        → queue_of nr_cpus q.thread t ≡ c
        → mem u (ready_list D (bitmap_rt_enqueue D nr_cpus q t) c)
          ≡ (u == t || mem u (ready_list D q c))
    mem-enqueue c t u own =
        let here = eq→== (queue_of nr_cpus q.thread t) c own in
        let listed = linked_iff D nr_cpus q t w ∙ ap (λ d. mem t (ready_list D q d)) own in
        elim (enqueue_refines D nr_cpus q t w).1 [
          | again linked same ↦
              ap (mem u) (same c) ∙ known u t (ready_list D q c) (sym listed ∙ linked)
          | inserted fresh same ↦
              ap (mem u) (same c ∙ rw here refl)
              ∙ mem-insert_by (priority_of D q) t u (ready_list D q c)
        ]
      where
        known : (v s : ℕ) (xs : List ℕ) → mem s xs ≡ true → mem v xs ≡ (v == s || mem v xs)
        known v s xs h = elim (Bool-cases (v == s)) [
          | inl e ↦ rw (==→eq v s e) (h ∙ sym (one_true s xs))
          | inr e ↦ rw e refl
        ]
          where
            one_true : (r : ℕ) (ys : List ℕ) → (r == r || mem r ys) ≡ true
            one_true r ys = ground arith

-- The running thread is back in the order of its CPU.
pub record Requeued (D : Dlist) (nr_cpus c cur : ℕ) (q q' : RunQueues D) : Type 0 where
  pub kept : Kept D nr_cpus q q'
  pub members : (u : ℕ) → mem u (ready_list D q' c) ≡ (u == cur || mem u (ready_list D q c))

module _ (D : Dlist) (nr_cpus c cur : ℕ) (some_cpu : 0 < nr_cpus) (few_cpus : nr_cpus < 256) where
  -- Off its list, if it is on it.
  pub unlinked : RunQueues D → RunQueues D
  unlinked q = if D.is_linked q.links cur then bitmap_rt_dequeue D nr_cpus q cur else q

  module _ (q : RunQueues D) (w : IsConsistent D nr_cpus q) where
    pub unlinked-Kept : Kept D nr_cpus q (unlinked q)
    unfolding unlinked
    unlinked-Kept = elim (Bool-cases (D.is_linked q.links cur)) [
      | inl on ↦
          rw on
            (Without-Kept D nr_cpus q w _ cur (dequeue_refines D nr_cpus q cur some_cpu few_cpus w))
      | inr off ↦ rw off (Kept-self D nr_cpus q w)
    ]

    pub unlinked-members :
        (u : ℕ)
        → (u == cur || mem u (ready_list D (unlinked q) c)) ≡ (u == cur || mem u (ready_list D q c))
    unfolding unlinked
    unlinked-members u = elim (Bool-cases (D.is_linked q.links cur)) [
      | inr off ↦ rw off refl
      | inl on ↦
          let gone = (dequeue_refines D nr_cpus q cur some_cpu few_cpus w).order c in
          rw (on, gone) (ground (arith, mem-without u cur (ready_list D q c)))
    ]

  pub restate_list :
      (q : RunQueues D) (t state : ℕ) → ready_list D (set_state D q t state) c ≡ ready_list D q c
  unfolding ready_list
  restate_list q t state = refl

  pub requeue-Requeued :
      (q : RunQueues D) (from_isr : Bool)
      → IsConsistent D nr_cpus q
      → queue_of nr_cpus q.thread cur ≡ c
      → Requeued D nr_cpus c cur q (requeue D nr_cpus q cur from_isr)
  unfolding requeue unlinked
  requeue-Requeued q true w own =
      let ready = set_state D q cur state_ready in
      let one = set_state-Kept D nr_cpus q w cur state_ready in
      let two = unlinked-Kept ready one.consistent in
      let both = Kept-trans D nr_cpus _ _ _ one two in
      let at : queue_of nr_cpus (unlinked ready).thread cur ≡ c =
        ap (λ (f : ℕ → ℕ). rq_of_cpu nr_cpus (f cur)) both.cpus ∙ own in
      record {
        kept = Kept-trans D nr_cpus _ _ _ both (enqueue-Kept D nr_cpus _ both.consistent cur);
        members = λ u.
            mem-enqueue D nr_cpus (unlinked ready) both.consistent c cur u at
            ∙ unlinked-members ready one.consistent u
            ∙ ap (λ xs. u == cur || mem u xs) (restate_list q cur state_ready);
      }
  requeue-Requeued q false w own =
      let one = unlinked-Kept q w in
      let two = set_state-Kept D nr_cpus (unlinked q) one.consistent cur state_ready in
      let both = Kept-trans D nr_cpus _ _ _ one two in
      let ready = set_state D (unlinked q) cur state_ready in
      let at : queue_of nr_cpus ready.thread cur ≡ c =
        ap (λ (f : ℕ → ℕ). rq_of_cpu nr_cpus (f cur)) both.cpus ∙ own in
      record {
        kept = Kept-trans D nr_cpus _ _ _ both (enqueue-Kept D nr_cpus _ both.consistent cur);
        members = λ u.
            mem-enqueue D nr_cpus ready both.consistent c cur u at
            ∙ ap (λ xs. u == cur || mem u xs) (restate_list (unlinked q) cur state_ready)
            ∙ unlinked-members q w u;
      }
