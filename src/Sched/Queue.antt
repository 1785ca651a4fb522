-- ===== src/Sched/Queue.antt =====
-- What holds of the run queues between the operations of kernel/sched/bitmap_rt.c.
use ulmk_microkernel.Base.{
  ℕ, ◌<◌, ◌≡◌, refl, ◌∙◌, sym, true, false, not, ◌&&◌, List, arith, ◌==◌, length, put_at,
  Bool-cases, inl, inr,
}
use ulmk_microkernel.Dlist.{Dlist, mem, null}
use ulmk_microkernel.Sched.Words.{AreWords, marked}
use ulmk_microkernel.Sched.Order.{flatten, AllOf, mem-flatten, not-mem-flatten}
use ulmk_microkernel.Sched.Bitmap.{SchedThread, RunQueues, level_head, rq_of_cpu}

pub rq_of_cpu-lt : (nr_cpus c : ℕ) → 0 < nr_cpus → nr_cpus < 256 → rq_of_cpu nr_cpus c < nr_cpus
rq_of_cpu-lt nr_cpus c h g = ground arith

pub same_level :
    (c p d q : ℕ) → p < 256 → q < 256 → (level_head c p == level_head d q) ≡ (c == d && p == q)
same_level c p d q h g = ground arith

-- The CPU whose queue a thread goes to, and the list it goes to.
abbrev pub queue_of : ℕ → (ℕ → SchedThread) → ℕ → ℕ
queue_of nr_cpus thread t = rq_of_cpu nr_cpus (thread t).cpu

abbrev pub home_of : ℕ → (ℕ → SchedThread) → ℕ → ℕ
home_of nr_cpus thread t = level_head (queue_of nr_cpus thread t) (thread t).priority

module _ (D : Dlist) where
  -- The threads that CPU `c` has to run, in order.
  unfoldable pub ready_list : RunQueues D → ℕ → List ℕ
  ready_list s c = flatten (λ p. D.nodes s.links (level_head c p)) 256 0

  abbrev pub priority_of : RunQueues D → ℕ → ℕ
  priority_of s t = (s.thread t).priority

  abbrev pub cpu_of : RunQueues D → ℕ → ℕ
  cpu_of s t = (s.thread t).cpu

module _ (D : Dlist) (nr_cpus : ℕ) where
  -- A thread is on the list of its CPU and priority or on none; the bitmap of each CPU marks the
  -- priorities whose list is not empty.
  pub record IsConsistent (s : RunQueues D) : Type 0 where
    pub small : (t : ℕ) → (s.thread t).priority < 256
    pub home : (t l : ℕ) → mem t (D.nodes s.links l) ≡ true → l ≡ home_of nr_cpus s.thread t
    pub linked :
        (t : ℕ) → D.is_linked s.links t ≡ mem t (D.nodes s.links (home_of nr_cpus s.thread t))
    pub words : (c : ℕ) → c < nr_cpus → AreWords (s.bitmap c) × (length (s.bitmap c) ≡ 8)
    pub marks :
        (c p : ℕ)
        → c < nr_cpus
        → p < 256
        → marked (s.bitmap c) p ≡ not (null (D.nodes s.links (level_head c p)))

  module _ (s : RunQueues D) (w : IsConsistent s) where
    -- The threads on the list of a CPU and a priority have both.
    pub at_home :
        (t c p : ℕ)
        → p < 256
        → mem t (D.nodes s.links (level_head c p)) ≡ true
        → (c ≡ queue_of nr_cpus s.thread t) × (p ≡ (s.thread t).priority)
    at_home t c p h m =
        let e = w.home t (level_head c p) m in let g = w.small t in (ground arith, ground arith)

    pub levels-AllOf :
        (c p : ℕ) → p < 256 → AllOf (priority_of D s) p (D.nodes s.links (level_head c p))
    levels-AllOf c p h t m = sym (at_home t c p h m).1

    -- A thread that is not linked is on no list.
    pub detached_of :
        (t : ℕ) → D.is_linked s.links t ≡ false → (l : ℕ) → mem t (D.nodes s.links l) ≡ false
    detached_of t h l = elim (Bool-cases (mem t (D.nodes s.links l))) [
      | inl m ↦ absurd (ground (arith, D.linked_of_mem s.links l t m))
      | inr off ↦ off
    ]

    -- A linked thread is on its list.
    pub linked_home :
        (t : ℕ)
        → D.is_linked s.links t ≡ true
        → mem t (D.nodes s.links (home_of nr_cpus s.thread t)) ≡ true
    linked_home t h = sym (w.linked t) ∙ h

-- A thread is linked just when it is in the order of its CPU.
pub linked_iff :
    (D : Dlist) (nr_cpus : ℕ) (s : RunQueues D) (t : ℕ)
    → IsConsistent D nr_cpus s
    → D.is_linked s.links t ≡ mem t (ready_list D s (queue_of nr_cpus s.thread t))
unfolding ready_list
linked_iff D nr_cpus s t w =
    let lists : ℕ → List ℕ = λ p. D.nodes s.links (level_head (queue_of nr_cpus s.thread t) p) in
    elim (Bool-cases (D.is_linked s.links t)) [
      | inl linked ↦
          linked
          ∙ sym (
              mem-flatten t lists 256 0 (s.thread t).priority (omega arith) (w.small t)
                (linked_home D nr_cpus s w t linked))
      | inr off ↦
          off
          ∙ sym (
              not-mem-flatten t lists 256 0
                (λ p. detached_of D nr_cpus s w t off (level_head (queue_of nr_cpus s.thread t) p)))
    ]

-- A thread whose state is set.
abbrev pub restated : (ℕ → SchedThread) → ℕ → ℕ → ℕ → SchedThread
restated thread t state = put_at thread t (record (thread t) { state = state })

pub restated_keeps :
    (thread : ℕ → SchedThread) (t state u : ℕ)
    → ((restated thread t state u).priority ≡ (thread u).priority)
      × ((restated thread t state u).cpu ≡ (thread u).cpu)
restated_keeps thread t state u = (ground arith, ground arith)

module _ (D : Dlist) (nr_cpus : ℕ) (s : RunQueues D) (t state : ℕ) where
  pub home_same :
      (u : ℕ) → home_of nr_cpus (restated s.thread t state) u ≡ home_of nr_cpus s.thread u
  home_same u = let (p, c) = restated_keeps s.thread t state u in rw (p, c) refl

  -- Setting the state of a thread leaves the queues consistent.
  pub restate-IsConsistent :
      IsConsistent D nr_cpus s
      → IsConsistent D nr_cpus (record s { thread = restated s.thread t state })
  restate-IsConsistent w = record {
    small = λ u. rw (restated_keeps s.thread t state u).0 (w.small u);
    home = λ u l m. w.home u l m ∙ sym (home_same u);
    linked = λ u. rw (home_same u) (w.linked u);
    words = w.words;
    marks = w.marks;
  }
