-- ===== src/Sched/Pick.antt =====
-- What bitmap_rt_dequeue, bitmap_rt_pick_next and bitmap_rt_peek_next do to the order in which
-- threads run.

use ulmk_microkernel.Base.{
  ℕ, ◌%◌, ◌<◌, ◌≡◌, refl, ◌∙◌, sym, ap, true, false, Option, none, some, List, [], ◌∷◌, arith,
  Bool-cases, Option-cases, inl, inr,
}
use ulmk_microkernel.Dlist.{Dlist, mem, null, head?, without}
use ulmk_microkernel.Sched.Words.{
  CountsZeros, marked, bitmap_first_set, nothing, lowest, first_set_from-FirstSet,
}
use ulmk_microkernel.Sched.Order.{flatten-without, flatten-none, head-flatten}
use ulmk_microkernel.Sched.Bitmap.{
  RunQueues, level_head, rq_of_cpu, bitmap_rt_dequeue, bitmap_rt_pick_next, bitmap_rt_peek_next,
}
use ulmk_microkernel.Sched.Queue.{
  queue_of, IsConsistent, ready_list, rq_of_cpu-lt, detached_of, linked_home,
}
use ulmk_microkernel.Sched.Take.{
  taken, removed_nodes, off_nodes, taken-IsConsistent, taken_order, without_absent,
}

head_of_null : (xs : List ℕ) → null xs ≡ true → head? xs ≡ none
head_of_null [] h = refl
head_of_null (x ∷ xs) h = absurd (ground arith)

pub nil_of : (xs : List ℕ) → head? xs ≡ none → xs ≡ []
nil_of [] h = refl
nil_of (x ∷ xs) h = absurd (ground arith)

pub mem_head : (t : ℕ) (xs : List ℕ) → head? xs ≡ some t → mem t xs ≡ true
mem_head t [] h = absurd (ground arith)
mem_head t (x ∷ xs) h = ground arith

-- The queues are consistent and are the former without the thread at `t`.
pub record Without (D : Dlist) (nr_cpus : ℕ) (s s' : RunQueues D) (t : ℕ) : Type 0 where
  pub consistent : IsConsistent D nr_cpus s'
  pub order : (c : ℕ) → ready_list D s' c ≡ without t (ready_list D s c)
  pub same_threads : s'.thread ≡ s.thread

module _ (D : Dlist) (nr_cpus : ℕ) (s : RunQueues D) where
  taken-Without :
      (w : IsConsistent D nr_cpus s) (t c p : ℕ) (level : p < 256) (cpu : c < nr_cpus)
      (here : mem t (D.nodes s.links (level_head c p)) ≡ true)
      → Without D nr_cpus s (taken D nr_cpus s w t c p level cpu here) t
  taken-Without w t c p level cpu here = record {
    consistent = taken-IsConsistent D nr_cpus s w t c p level cpu here;
    order = taken_order D nr_cpus s w t c p level cpu here;
    same_threads = refl;
  }

  module _ (t : ℕ) (some_cpu : 0 < nr_cpus) (few_cpus : nr_cpus < 256)
      (w : IsConsistent D nr_cpus s) where
    -- bitmap_rt_dequeue leaves the queues consistent and without the thread, in the order they had.
    pub dequeue_refines : Without D nr_cpus s (bitmap_rt_dequeue D nr_cpus s t) t
    unfolding bitmap_rt_dequeue ready_list
    dequeue_refines =
        let c = queue_of nr_cpus s.thread t in
        let p = (s.thread t).priority in
        let cpu = rq_of_cpu-lt nr_cpus (s.thread t).cpu some_cpu few_cpus in
        elim (Bool-cases (D.is_linked s.links t)) [
          | inr unlinked ↦
              rw (bitmap_rt_dequeue, unlinked)
                (record {
                  consistent = w;
                  order = λ d.
                      flatten-without t (λ q. D.nodes s.links (level_head d q))
                        (λ q. D.nodes s.links (level_head d q)) 256 0
                        (λ q h. sym (
                          without_absent t (D.nodes s.links (level_head d q))
                            (detached_of D nr_cpus s w t unlinked (level_head d q))));
                  same_threads = refl;
                })
          | inl linked ↦
              let here = linked_home D nr_cpus s w t linked in
              let off = D.node_init (D.remove s.links t) t in
              let left =
                D.is_empty_lem off (level_head c p)
                ∙ ap null (off_nodes D nr_cpus s w t c p (w.small t) cpu here (level_head c p)) in
              rw (bitmap_rt_dequeue, linked, left) (taken-Without w t c p (w.small t) cpu here)
        ]

-- What bitmap_rt_pick_next makes of the queues: it gives the first thread of the CPU, taken off, or
-- none when there is none.
pub data Picked (D : Dlist) (nr_cpus : ℕ) (s : RunQueues D) (c : ℕ) (r : Option ℕ)
    (s' : RunQueues D) : Type 0 where
  idle : r ≡ none → s' ≡ s → ready_list D s c ≡ [] → Picked D nr_cpus s c r s'
  picked :
      (t : ℕ)
      → r ≡ some t
      → head? (ready_list D s c) ≡ some t
      → Without D nr_cpus s s' t
      → Picked D nr_cpus s c r s'

pub pick_head :
    (D : Dlist) (nr_cpus : ℕ) (s : RunQueues D) (c : ℕ) (r : Option ℕ) (s' : RunQueues D)
    → Picked D nr_cpus s c r s'
    → r ≡ head? (ready_list D s c)
pick_head D nr_cpus s c r s' (idle none_left same empty) = none_left ∙ ap head? (sym empty)
pick_head D nr_cpus s c r s' (picked t given first o) = given ∙ sym first

module _ (D : Dlist) (nr_cpus : ℕ) (clz : ℕ → ℕ) (counts : CountsZeros clz) (s : RunQueues D)
    (w : IsConsistent D nr_cpus s) (c : ℕ) (cpu : c < nr_cpus) where
  no_nodes :
      (p : ℕ)
      → p < 256
      → marked (s.bitmap c) p ≡ false
      → null (D.nodes s.links (level_head c p)) ≡ true
  no_nodes p h clear = ground (arith, w.marks c p cpu h)

  -- The list at the priority that bitmap_first_set finds begins the order.
  first_list :
      let p = bitmap_first_set clz (s.bitmap c) in
      (p < 256) × (head? (D.nodes s.links (level_head c p)) ≡ head? (ready_list D s c))
  unfolding bitmap_first_set ready_list
  first_list =
      let eight = (w.words c cpu).1 in
      elim (first_set_from-FirstSet clz counts (s.bitmap c) 0 (w.words c cpu).0
        (omega (arith, eight))) [
          | nothing e clear ↦
              rw
                (
                  e,
                  flatten-none (λ p. D.nodes s.links (level_head c p)) 256 0
                      (λ r h. no_nodes r h (clear r)),
                )
                (omega arith, head_of_null _ (no_nodes 255 (omega arith) (clear 255)))
          | lowest q e inside found least ↦
              let fits : q < 256 = omega (arith, eight) in
              let e' : bitmap_first_set clz (s.bitmap c) ≡ q = omega (arith, e) in
              rw e' (
                fits,
                sym (
                    head-flatten (λ p. D.nodes s.links (level_head c p)) 256 0 q (omega arith) fits
                      (λ r h. no_nodes r (omega arith) (least r h))
                      (ground (arith, w.marks c q cpu fits))),
              )
        ]

module _ (D : Dlist) (nr_cpus : ℕ) (clz : ℕ → ℕ) (s : RunQueues D) (me : ℕ) where
  -- bitmap_rt_pick_next gives the first thread in the order of the CPU and takes it off, or gives
  -- none and changes nothing when there is none; bitmap_rt_peek_next gives the same thread.
  pub pick_next_refines :
      CountsZeros clz
      → 0 < nr_cpus
      → nr_cpus < 256
      → IsConsistent D nr_cpus s
      → let (r, s') = bitmap_rt_pick_next D nr_cpus clz s me in
        Picked D nr_cpus s (rq_of_cpu nr_cpus (me % 256)) r s'
        × (bitmap_rt_peek_next D nr_cpus clz s me ≡ r)
  unfolding bitmap_rt_pick_next bitmap_rt_peek_next
  pick_next_refines counts some_cpu few_cpus w =
      let c = rq_of_cpu nr_cpus (me % 256) in
      let cpu = rq_of_cpu-lt nr_cpus (me % 256) some_cpu few_cpus in
      let p = bitmap_first_set clz (s.bitmap c) in
      let (fits, first) = first_list D nr_cpus clz counts s w c cpu in
      let head = level_head c p in
      elim (Option-cases (head? (D.nodes s.links head))) [
        | inl empty ↦
            rw (bitmap_rt_pick_next, D.get_lem s.links head, D.peek_head_lem s.links head, empty)
              (idle refl refl (nil_of _ (sym first ∙ empty)), refl)
        | inr (t, there) ↦
            let here = mem_head t (D.nodes s.links head) there in
            let left =
              D.is_empty_lem (D.remove s.links t) head
              ∙ ap null (removed_nodes D nr_cpus s w t c p fits cpu here head) in
            rw (bitmap_rt_pick_next, D.get_lem s.links head, D.peek_head_lem s.links head, there)
              (
                picked t refl (sym first ∙ there)
                    (rw left (taken-Without D nr_cpus s w t c p fits cpu here)),
                refl,
              )
      ]

  pub peek-head :
      CountsZeros clz
      → 0 < nr_cpus
      → nr_cpus < 256
      → IsConsistent D nr_cpus s
      → bitmap_rt_peek_next D nr_cpus clz s me
        ≡ head? (ready_list D s (rq_of_cpu nr_cpus (me % 256)))
  peek-head counts some_cpu few_cpus w =
      let (outcome, same) = pick_next_refines counts some_cpu few_cpus w in
      same ∙ pick_head D nr_cpus s _ _ _ outcome
