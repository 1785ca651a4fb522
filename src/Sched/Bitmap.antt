-- ===== src/Sched/Bitmap.antt =====
-- kernel/sched/bitmap_rt.c: one run queue for each CPU, a list for each of 256 priorities and a
-- bitmap of the priorities that have a thread. `rq_lock` makes each operation one step. The node of
-- a thread in a list is the thread's address.
use ulmk_microkernel.Base.{
  ℕ, zero, suc, ◌+◌, ◌*◌, ◌%◌, not, Option, none, some, List, [], ◌∷◌, if◌then◌else◌, leb, put_at,
}
use ulmk_microkernel.Dlist.{Dlist}
use ulmk_microkernel.Notif.Object.{state_ready}
use ulmk_microkernel.Sched.Words.{bitmap_words, bitmap_set, bitmap_clear, bitmap_first_set}

-- The fields of `ulmk_thread_t` that the scheduler reads and writes.
pub record SchedThread : Type 0 where
  pub state : ℕ
  pub priority : ℕ
  pub cpu : ℕ

-- `&rq[cpu].level[prio]`
abbrev pub level_head : ℕ → ℕ → ℕ
level_head cpu prio = cpu * 256 + prio

-- `rq`, with the threads.
pub record RunQueues (D : Dlist) : Type 0 where
  pub bitmap : ℕ → List ℕ
  pub links : D.Links
  pub thread : ℕ → SchedThread

-- The loops of bitmap_rt_init, from priority `i` and from CPU `c` on.
abbrev pub zero_words : ℕ → List ℕ
zero_words zero = []
zero_words (suc n) = 0 ∷ zero_words n

module _ (D : Dlist) where
  unfoldable pub init_levels : ℕ → ℕ → ℕ → D.Links → D.Links
  init_levels c zero i links = links
  init_levels c (suc n) i links = init_levels c n (i + 1) (D.list_init links (level_head c i))

  unfoldable pub init_cpus : ℕ → ℕ → RunQueues D → RunQueues D
  unfolding init_levels
  init_cpus zero c s = s
  init_cpus (suc n) c s = init_cpus n (c + 1) (record s {
    bitmap = put_at s.bitmap c (zero_words bitmap_words);
    links = init_levels c 256 0 s.links;
  })

-- The index that rq_of_cpu takes.
abbrev pub rq_of_cpu : ℕ → ℕ → ℕ
rq_of_cpu nr_cpus cpu = if leb (nr_cpus % 256) cpu then 0 else cpu

module _ (D : Dlist) (nr_cpus : ℕ) where
  unfoldable pub bitmap_rt_init : RunQueues D → RunQueues D
  unfolding init_cpus
  bitmap_rt_init s = init_cpus D nr_cpus 0 s

  unfoldable pub bitmap_rt_enqueue : RunQueues D → ℕ → RunQueues D
  unfolding bitmap_set
  bitmap_rt_enqueue s t =
      let th = s.thread t in
      let c = rq_of_cpu nr_cpus th.cpu in
      let p = th.priority in
      let readied = put_at s.thread t (record th { state = state_ready }) in
      if not (D.is_linked s.links t)
      then record {
        bitmap = put_at s.bitmap c (bitmap_set (s.bitmap c) p);
        links = D.append s.links (level_head c p) t;
        thread = readied;
      }
      else record s { thread = readied }

  unfoldable pub bitmap_rt_dequeue : RunQueues D → ℕ → RunQueues D
  unfolding bitmap_clear
  bitmap_rt_dequeue s t =
      let th = s.thread t in
      let c = rq_of_cpu nr_cpus th.cpu in
      let p = th.priority in
      let off = D.node_init (D.remove s.links t) t in
      if D.is_linked s.links t
      then record s {
        bitmap =
            if D.is_empty off (level_head c p)
            then put_at s.bitmap c (bitmap_clear (s.bitmap c) p)
            else s.bitmap;
        links = off;
      }
      else s

module _ (D : Dlist) (nr_cpus : ℕ) (clz : ℕ → ℕ) where
  -- On CPU `me`: the thread, if any, and the queues after.
  unfoldable pub bitmap_rt_pick_next : RunQueues D → ℕ → Option ℕ × RunQueues D
  unfolding bitmap_clear bitmap_first_set
  bitmap_rt_pick_next s me =
      let c = rq_of_cpu nr_cpus (me % 256) in
      let p = bitmap_first_set clz (s.bitmap c) in
      elim (D.get s.links (level_head c p)) [
        | none ↦ (none, s)
        | some (n, off) ↦ (
          some n,
          record s {
            bitmap =
                if D.is_empty off (level_head c p)
                then put_at s.bitmap c (bitmap_clear (s.bitmap c) p)
                else s.bitmap;
            links = D.node_init off n;
          },
        )
      ]

  unfoldable pub bitmap_rt_peek_next : RunQueues D → ℕ → Option ℕ
  unfolding bitmap_first_set
  bitmap_rt_peek_next s me =
      let c = rq_of_cpu nr_cpus (me % 256) in
      let p = bitmap_first_set clz (s.bitmap c) in D.peek_head s.links (level_head c p)
