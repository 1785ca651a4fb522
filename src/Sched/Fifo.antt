-- ===== src/Sched/Fifo.antt =====
-- kernel/sched/fifo_rt.c: one list in the order of the priorities. `sys_dlist_insert_at` of list.h
-- is a parameter, with the law that it puts the node before the first that the condition names.
use ulmk_microkernel.Base.{
  ℕ, ◌%◌, ◌<◌, ◌≡◌, refl, ◌∙◌, sym, ap, Bool, false, not, ◌&&◌, Option, none, some, List, [], ◌∷◌,
  arith, ◌==◌, if◌then◌else◌, ltb, put_at, Bool-cases, inl, inr, eq→==,
}
use ulmk_microkernel.Dlist.{Dlist, IsDetached, mem, head?, without, mem-without, insert_before}
use ulmk_microkernel.Notif.Object.{state_ready}
use ulmk_microkernel.Sched.Words.{CountsZeros}
use ulmk_microkernel.Sched.Order.{insert_by}
use ulmk_microkernel.Sched.Bitmap.{
  SchedThread, RunQueues, rq_of_cpu, bitmap_rt_enqueue, bitmap_rt_dequeue, bitmap_rt_peek_next,
  bitmap_rt_pick_next,
}
use ulmk_microkernel.Sched.Queue.{queue_of, IsConsistent, ready_list}
use ulmk_microkernel.Sched.Take.{without_absent}
use ulmk_microkernel.Sched.Enqueue.{again, inserted, enqueue_refines}
use ulmk_microkernel.Sched.Pick.{
  Picked, idle, picked, pick_head, dequeue_refines, pick_next_refines,
}

-- `rq`, with the threads.
pub record FifoQueue (D : Dlist) : Type 0 where
  pub links : D.Links
  pub thread : ℕ → SchedThread

-- `&rq`
abbrev pub fifo_head : ℕ
fifo_head = 0

abbrev pub fifo_prio_cond : (ℕ → SchedThread) → ℕ → ℕ → Bool
fifo_prio_cond thread t n = ltb (thread t).priority (thread n).priority

module _ (D : Dlist) where
  -- What `sys_dlist_insert_at` is documented to do.
  abbrev pub InsertsAt : (D.Links → ℕ → ℕ → (ℕ → Bool) → D.Links) → Type 0
  InsertsAt insert_at =
      (s : D.Links) (l n : ℕ) (cond : ℕ → Bool)
      → IsDetached D s n
      → (m : ℕ)
      → D.nodes (insert_at s l n cond) m
        ≡ (if l == m then insert_before cond n (D.nodes s m) else D.nodes s m)

  unfoldable pub fifo_rt_init : FifoQueue D → FifoQueue D
  fifo_rt_init s = record s { links = D.list_init s.links fifo_head }

  unfoldable pub fifo_rt_enqueue :
      (D.Links → ℕ → ℕ → (ℕ → Bool) → D.Links) → FifoQueue D → ℕ → FifoQueue D
  fifo_rt_enqueue insert_at s t = record {
    links = insert_at s.links fifo_head t (fifo_prio_cond s.thread t);
    thread = put_at s.thread t (record (s.thread t) { state = state_ready });
  }

  unfoldable pub fifo_rt_dequeue : FifoQueue D → ℕ → FifoQueue D
  fifo_rt_dequeue s t =
      if not (D.is_linked s.links t)
      then s
      else record s { links = D.node_init (D.remove s.links t) t }

  unfoldable pub fifo_rt_pick_next : FifoQueue D → Option ℕ
  fifo_rt_pick_next s = D.peek_head s.links fifo_head

  unfoldable pub fifo_rt_peek_next : FifoQueue D → Option ℕ
  fifo_rt_peek_next s = D.peek_head s.links fifo_head

  -- The list of the one CPU holds what the bitmap queues have in order, and a thread is linked in
  -- both or in neither.
  pub record SameOrder (nr_cpus c : ℕ) (f : FifoQueue D) (s : RunQueues D) : Type 0 where
    pub consistent : IsConsistent D nr_cpus s
    pub same_threads : f.thread ≡ s.thread
    pub one_cpu : (t : ℕ) → queue_of nr_cpus s.thread t ≡ c
    pub order : D.nodes f.links fifo_head ≡ ready_list D s c
    pub linked : (t : ℕ) → D.is_linked f.links t ≡ mem t (D.nodes f.links fifo_head)

itself : (t : ℕ) (b : Bool) → (not (t == t) && b) ≡ false
itself t b = ground arith

insert_by-insert_before :
    (thread : ℕ → SchedThread) (t : ℕ) (xs : List ℕ)
    → insert_before (fifo_prio_cond thread t) t xs ≡ insert_by (λ u. (thread u).priority) t xs
insert_by-insert_before thread t [] = refl
insert_by-insert_before thread t (x ∷ xs) = ground (arith, insert_by-insert_before thread t xs)

module _ (D : Dlist) (nr_cpus c : ℕ) (f : FifoQueue D) (s : RunQueues D)
    (a : SameOrder D nr_cpus c f s) (t : ℕ) where
  -- The lists still agree after a thread that is in neither is enqueued in both.
  fifo_enqueue_order :
      (insert_at : D.Links → ℕ → ℕ → (ℕ → Bool) → D.Links)
      → InsertsAt D insert_at
      → IsDetached D f.links t
      → D.is_linked s.links t ≡ false
      → D.nodes (fifo_rt_enqueue D insert_at f t).links fifo_head
        ≡ ready_list D (bitmap_rt_enqueue D nr_cpus s t) c
  unfolding fifo_rt_enqueue
  fifo_enqueue_order insert_at inserts detached fresh =
      let (ready, outcome, w) = enqueue_refines D nr_cpus s t a.consistent in
      let here = eq→== (queue_of nr_cpus s.thread t) c (a.one_cpu t) in
      elim outcome [
        | again linked same ↦ absurd (ground arith)
        | inserted off same ↦
            inserts f.links fifo_head t (fifo_prio_cond f.thread t) detached fifo_head
            ∙ rw (a.order, a.same_threads)
                (insert_by-insert_before s.thread t (ready_list D s c)
                  ∙ sym (same c ∙ rw here refl))
      ]

  fifo_dequeue_order :
      0 < nr_cpus
      → nr_cpus < 256
      → D.nodes (fifo_rt_dequeue D f t).links fifo_head
        ≡ ready_list D (bitmap_rt_dequeue D nr_cpus s t) c
  unfolding fifo_rt_dequeue
  fifo_dequeue_order some_cpu few_cpus =
      let gone = (dequeue_refines D nr_cpus s t some_cpu few_cpus a.consistent).order c in
      elim (Bool-cases (D.is_linked f.links t)) [
        | inr off ↦
            rw (fifo_rt_dequeue, off)
              (sym (without_absent t (D.nodes f.links fifo_head) (sym (a.linked t) ∙ off))
                ∙ ap (without t) a.order
                ∙ sym gone)
        | inl linked ↦
            let there = sym (a.linked t) ∙ linked in
            let removed = D.nodes-remove f.links fifo_head t there in
            let detached : IsDetached D (D.remove f.links t) t =
              λ l. ap (mem t) (removed l) ∙ mem-without t t (D.nodes f.links l) ∙ itself t _ in
            rw (fifo_rt_dequeue, linked)
              (D.nodes-node_init (D.remove f.links t) t detached fifo_head
                ∙ removed fifo_head
                ∙ ap (without t) a.order
                ∙ sym gone)
      ]

abbrev from_some : ℕ → Option ℕ → ℕ
from_some d none = d
from_some d (some x) = x

-- What bitmap_rt_pick_next leaves is without the thread that it gives.
pick_takes :
    (D : Dlist) (nr_cpus c : ℕ) (s : RunQueues D) (r : Option ℕ) (q : RunQueues D) (t : ℕ)
    → Picked D nr_cpus s c r q
    → r ≡ some t
    → ready_list D q c ≡ without t (ready_list D s c)
pick_takes D nr_cpus c s r q t (idle none_left same empty) e = absurd (ground (arith, e, none_left))
pick_takes D nr_cpus c s r q t (picked u given first o) e =
    o.order c ∙ ap (λ v. without v (ready_list D s c)) (ap (from_some u) (sym given ∙ e))

-- With one CPU's threads in the same order, fifo_rt_enqueue of a thread that is not queued yet and
-- fifo_rt_dequeue leave the order that bitmap_rt_enqueue and bitmap_rt_dequeue leave, and
-- fifo_rt_peek_next and fifo_rt_pick_next give the thread that bitmap_rt_peek_next and
-- bitmap_rt_pick_next give. fifo_rt_pick_next leaves the thread queued; once fifo_rt_dequeue has taken
-- it off, the order is the one that bitmap_rt_pick_next leaves.
pub fifo_agrees :
    (D : Dlist) (nr_cpus : ℕ) (clz : ℕ → ℕ) (me : ℕ) (f : FifoQueue D) (s : RunQueues D) (t u : ℕ)
    (insert_at : D.Links → ℕ → ℕ → (ℕ → Bool) → D.Links)
    → CountsZeros clz
    → 0 < nr_cpus
    → nr_cpus < 256
    → InsertsAt D insert_at
    → SameOrder D nr_cpus (rq_of_cpu nr_cpus (me % 256)) f s
    → IsDetached D f.links t
    → D.is_linked s.links t ≡ false
    → let c = rq_of_cpu nr_cpus (me % 256) in
      (D.nodes (fifo_rt_enqueue D insert_at f t).links fifo_head
        ≡ ready_list D (bitmap_rt_enqueue D nr_cpus s t) c)
      × (D.nodes (fifo_rt_dequeue D f u).links fifo_head
          ≡ ready_list D (bitmap_rt_dequeue D nr_cpus s u) c)
      × (fifo_rt_peek_next D f ≡ bitmap_rt_peek_next D nr_cpus clz s me)
      × (fifo_rt_pick_next D f ≡ (bitmap_rt_pick_next D nr_cpus clz s me).0)
      × ((v : ℕ)
          → fifo_rt_pick_next D f ≡ some v
          → D.nodes (fifo_rt_dequeue D f v).links fifo_head
            ≡ ready_list D (bitmap_rt_pick_next D nr_cpus clz s me).1 c)
unfolding fifo_rt_peek_next fifo_rt_pick_next
fifo_agrees D nr_cpus clz me f s t u insert_at counts some_cpu few_cpus inserts a detached fresh =
    let c = rq_of_cpu nr_cpus (me % 256) in
    let (outcome, same) =
      pick_next_refines D nr_cpus clz s me counts some_cpu few_cpus a.consistent in
    let head =
      D.peek_head_lem f.links fifo_head
      ∙ ap head? a.order
      ∙ sym (pick_head D nr_cpus s c _ _ outcome) in
    (
      fifo_enqueue_order D nr_cpus c f s a t insert_at inserts detached fresh,
      fifo_dequeue_order D nr_cpus c f s a u some_cpu few_cpus,
      head ∙ sym same,
      head,
      λ v given.
          let gone = dequeue_refines D nr_cpus s v some_cpu few_cpus a.consistent in
          fifo_dequeue_order D nr_cpus c f s a v some_cpu few_cpus
          ∙ gone.order c
          ∙ sym (pick_takes D nr_cpus c s _ _ v outcome (sym head ∙ given)),
    )
