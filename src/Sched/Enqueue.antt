-- ===== src/Sched/Enqueue.antt =====
-- What bitmap_rt_enqueue does to the order in which threads run.
use ulmk_microkernel.Base.{
  ℕ, ◌<◌, ◌≡◌, refl, ◌∙◌, sym, ap, true, false, not, List, [], ◌∷◌, ◌++◌, arith, ◌==◌,
  if◌then◌else◌, length, put_at, put_at_self, Bool-cases, inl, inr, ==→eq, eq→==,
}
use ulmk_microkernel.Dlist.{Dlist, mem, null, mem-snoc}
use ulmk_microkernel.Notif.Object.{state_ready}
use ulmk_microkernel.Sched.Words.{
  AreWords, marked, bitmap_set, marked-bitmap_set, bitmap_set-AreWords,
}
use ulmk_microkernel.Sched.Order.{insert_by, flatten_ext, flatten-insert}
use ulmk_microkernel.Sched.Bitmap.{SchedThread, RunQueues, level_head, bitmap_rt_enqueue}
use ulmk_microkernel.Sched.Queue.{
  restated, restated_keeps, home_same, restate-IsConsistent, queue_of, home_of, IsConsistent,
  ready_list, priority_of, same_level, levels-AllOf, detached_of,
}

pub null-snoc : (xs : List ℕ) (t : ℕ) → null (xs ++ t ∷ []) ≡ false
null-snoc [] t = refl
null-snoc (x ∷ xs) t = refl

abbrev readied : (ℕ → SchedThread) → ℕ → ℕ → SchedThread
readied thread t = restated thread t state_ready

module _ (D : Dlist) (nr_cpus : ℕ) (s : RunQueues D) (t : ℕ) (w : IsConsistent D nr_cpus s) where
  abbrev appended : RunQueues D
  appended =
      let th = s.thread t in
      record {
        bitmap =
            put_at s.bitmap (queue_of nr_cpus s.thread t)
              (bitmap_set (s.bitmap (queue_of nr_cpus s.thread t)) th.priority);
        links = D.append s.links (home_of nr_cpus s.thread t) t;
        thread = readied s.thread t;
      }

  module _ (fresh : D.is_linked s.links t ≡ false) where
    new_nodes :
        (l : ℕ)
        → D.nodes appended.links l ≡ (
            if home_of nr_cpus s.thread t == l
            then D.nodes s.links l ++ t ∷ []
            else D.nodes s.links l)
    new_nodes =
        D.nodes-append s.links (home_of nr_cpus s.thread t) t (detached_of D nr_cpus s w t fresh)

    new_home : (u l : ℕ) → mem u (D.nodes appended.links l) ≡ true → l ≡ home_of nr_cpus s.thread u
    new_home u l m = elim (Bool-cases (mem u (D.nodes s.links l))) [
      | inl old ↦ w.home u l old
      | inr absent ↦
          let e = new_nodes l in
          let last = mem-snoc u t (D.nodes s.links l) in
          let same : u ≡ t = ground (arith, ==→eq u t) in
          rw same (sym (==→eq (home_of nr_cpus s.thread t) l (ground arith)))
    ]

    new_linked :
        (u : ℕ)
        → D.is_linked appended.links u ≡ mem u (D.nodes appended.links (home_of nr_cpus s.thread u))
    new_linked u =
        let home = home_of nr_cpus s.thread u in
        let last = mem-snoc u t (D.nodes s.links home) in
        let added =
          D.linked-append s.links (home_of nr_cpus s.thread t) t (detached_of D nr_cpus s w t fresh)
            u in
        elim (Bool-cases (t == u)) [
          | inl same ↦
              let e : t ≡ u = ==→eq t u same in
              let here : (home_of nr_cpus s.thread t == home) ≡ true =
                eq→== _ _ (ap (home_of nr_cpus s.thread) e) in
              rw (added, new_nodes home, here, last) (ground arith)
          | inr other ↦ rw (added, other, w.linked u) (ground (arith, new_nodes home))
        ]

    new_words :
        (c : ℕ) → c < nr_cpus → AreWords (appended.bitmap c) × (length (appended.bitmap c) ≡ 8)
    new_words c h =
        let made = bitmap_set-AreWords (s.bitmap c) (s.thread t).priority (w.words c h).0 in
        elim (Bool-cases (queue_of nr_cpus s.thread t == c)) [
          | inl here ↦ rw (here, ==→eq _ c here) (made.0, made.1 ∙ (w.words c h).1)
          | inr other ↦ rw other (w.words c h)
        ]

    new_marks :
        (c p : ℕ)
        → c < nr_cpus
        → p < 256
        → marked (appended.bitmap c) p ≡ not (null (D.nodes appended.links (level_head c p)))
    new_marks c p h g =
        let level = level_head c p in
        let own = (s.thread t).priority in
        let same = same_level (queue_of nr_cpus s.thread t) own c p (w.small t) g in
        let at = new_nodes level in
        let some_left = null-snoc (D.nodes s.links level) t in
        elim (Bool-cases (queue_of nr_cpus s.thread t == c)) [
          | inl here ↦
              let set_mark =
                marked-bitmap_set (s.bitmap c) own p (omega (arith, (w.words c h).1, w.small t)) in
              rw (here, ==→eq _ c here, set_mark, w.marks c p h g) (ground arith)
          | inr other ↦ rw (other, w.marks c p h g) (ground arith)
        ]

    appended-IsConsistent : IsConsistent D nr_cpus appended
    appended-IsConsistent = record {
      small = λ u. rw (restated_keeps s.thread t state_ready u).0 (w.small u);
      home = λ u l m. new_home u l m ∙ sym (home_same D nr_cpus s t state_ready u);
      linked = λ u. rw (home_same D nr_cpus s t state_ready u) (new_linked u);
      words = new_words;
      marks = new_marks;
    }

    new_order :
        (c : ℕ)
        → ready_list D appended c ≡ (
            if queue_of nr_cpus s.thread t == c
            then insert_by (priority_of D s) t (ready_list D s c)
            else ready_list D s c)
    unfolding ready_list
    new_order c =
        let lists : ℕ → List ℕ = λ p. D.nodes s.links (level_head c p) in
        let after : ℕ → List ℕ = λ p. D.nodes appended.links (level_head c p) in
        let own = (s.thread t).priority in
        let levels =
          λ (p : ℕ) (g : p < 256). same_level (queue_of nr_cpus s.thread t) own c p (w.small t) g in
        elim (Bool-cases (queue_of nr_cpus s.thread t == c)) [
          | inl here ↦ rw here (
              flatten-insert (priority_of D s) t lists after 256 0
                (λ p g. levels-AllOf D nr_cpus s w c p g)
                (λ p g. ground (arith, new_nodes (level_head c p), levels p g)) (omega arith)
                (w.small t))
          | inr other ↦ rw other (
              flatten_ext after lists 256 0
                (λ p lo g. ground (arith, new_nodes (level_head c p), levels p g)))
        ]

-- bitmap_rt_enqueue keeps every priority and CPU.
pub enqueue-keeps :
    (D : Dlist) (nr_cpus : ℕ) (s : RunQueues D) (t u : ℕ)
    → let s' = bitmap_rt_enqueue D nr_cpus s t in
      ((s'.thread u).priority ≡ (s.thread u).priority) × ((s'.thread u).cpu ≡ (s.thread u).cpu)
unfolding bitmap_rt_enqueue
enqueue-keeps D nr_cpus s t u = elim (Bool-cases (D.is_linked s.links t)) [
  | inl queued ↦ rw (bitmap_rt_enqueue, queued) (restated_keeps s.thread t state_ready u)
  | inr fresh ↦ rw (bitmap_rt_enqueue, fresh) (restated_keeps s.thread t state_ready u)
]

-- What bitmap_rt_enqueue makes of the queues, by whether the thread is queued already.
pub data Enqueued (D : Dlist) (nr_cpus : ℕ) (s s' : RunQueues D) (t : ℕ) : Type 0 where
  again :
      D.is_linked s.links t ≡ true
      → ((c : ℕ) → ready_list D s' c ≡ ready_list D s c)
      → Enqueued D nr_cpus s s' t
  inserted :
      D.is_linked s.links t ≡ false
      → ((c : ℕ)
          → ready_list D s' c ≡ (
              if queue_of nr_cpus s.thread t == c
              then insert_by (priority_of D s) t (ready_list D s c)
              else ready_list D s c))
      → Enqueued D nr_cpus s s' t

-- On consistent queues bitmap_rt_enqueue makes the thread ready and leaves the queues consistent. A
-- thread that is not queued yet goes, in the order of its CPU, before the first thread of a greater
-- priority number; the other CPUs keep theirs. For a thread that is queued all orders stay.
pub enqueue_refines :
    (D : Dlist) (nr_cpus : ℕ) (s : RunQueues D) (t : ℕ)
    → IsConsistent D nr_cpus s
    → let s' = bitmap_rt_enqueue D nr_cpus s t in
      ((s'.thread t).state ≡ state_ready) × Enqueued D nr_cpus s s' t × IsConsistent D nr_cpus s'
unfolding bitmap_rt_enqueue ready_list
enqueue_refines D nr_cpus s t w =
    let ready = ap (λ (th : SchedThread). th.state) (put_at_self s.thread t _) in
    elim (Bool-cases (D.is_linked s.links t)) [
      | inl queued ↦
          rw (bitmap_rt_enqueue, queued)
            (ready, again queued (λ c. refl), restate-IsConsistent D nr_cpus s t state_ready w)
      | inr fresh ↦
          rw (bitmap_rt_enqueue, fresh)
            (
              ready,
              inserted fresh (new_order D nr_cpus s t w fresh),
              appended-IsConsistent D nr_cpus s t w fresh,
            )
    ]
