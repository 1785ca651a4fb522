-- ===== src/Sched/Take.antt =====
-- What bitmap_rt_dequeue and bitmap_rt_pick_next do to the order in which threads run: both take one
-- thread off its list.

use ulmk_microkernel.Base.{
  ℕ, ◌<◌, ◌≡◌, refl, ◌∙◌, sym, ap, true, false, not, ◌&&◌, List, [], ◌∷◌, arith, ◌==◌,
  if◌then◌else◌, length, put_at, Bool-cases, inl, inr, ==→eq, eq→==,
}
use ulmk_microkernel.Dlist.{Dlist, mem, null, without, mem-without, nodes-off, linked-off}
use ulmk_microkernel.Sched.Words.{
  AreWords, marked, bitmap_clear, marked-bitmap_clear, bitmap_clear-AreWords,
}
use ulmk_microkernel.Sched.Order.{flatten-without}
use ulmk_microkernel.Sched.Bitmap.{RunQueues, level_head}
use ulmk_microkernel.Sched.Queue.{home_of, IsConsistent, ready_list, same_level}

not-null_of_mem : (n : ℕ) (xs : List ℕ) → mem n xs ≡ true → null xs ≡ false
not-null_of_mem n [] h = absurd (ground arith)
not-null_of_mem n (x ∷ xs) h = refl

pub without_absent : (n : ℕ) (xs : List ℕ) → mem n xs ≡ false → without n xs ≡ xs
without_absent n [] h = refl
without_absent n (x ∷ xs) h = ground (arith, without_absent n xs)

module _ (D : Dlist) (nr_cpus : ℕ) (s : RunQueues D) (w : IsConsistent D nr_cpus s) (t c p : ℕ)
    (level : p < 256) (cpu : c < nr_cpus)
    (here : mem t (D.nodes s.links (level_head c p)) ≡ true) where
  -- The queues without the thread at `t`, which is on the list of CPU `c` and priority `p`.
  abbrev off : D.Links
  off = D.node_init (D.remove s.links t) t

  abbrev pub taken : RunQueues D
  taken = record s {
    bitmap =
        if null (without t (D.nodes s.links (level_head c p)))
        then put_at s.bitmap c (bitmap_clear (s.bitmap c) p)
        else s.bitmap;
    links = off;
  }

  pub removed_nodes : (l : ℕ) → D.nodes (D.remove s.links t) l ≡ without t (D.nodes s.links l)
  removed_nodes = D.nodes-remove s.links (level_head c p) t here

  pub off_nodes : (l : ℕ) → D.nodes off l ≡ without t (D.nodes s.links l)
  off_nodes = nodes-off D s.links (level_head c p) t here

  off_linked : (u : ℕ) → D.is_linked off u ≡ (not (t == u) && D.is_linked s.links u)
  off_linked = linked-off D s.links (level_head c p) t here

  kept_home : (u l : ℕ) → mem u (D.nodes off l) ≡ true → l ≡ home_of nr_cpus s.thread u
  kept_home u l m = w.home u l (ground (arith, off_nodes l, mem-without u t (D.nodes s.links l)))

  kept_linked : (u : ℕ) → D.is_linked off u ≡ mem u (D.nodes off (home_of nr_cpus s.thread u))
  kept_linked u =
      let home = home_of nr_cpus s.thread u in
      rw (off_linked u, off_nodes home, w.linked u) (sym (mem-without u t (D.nodes s.links home)))

  kept_words : (d : ℕ) → d < nr_cpus → AreWords (taken.bitmap d) × (length (taken.bitmap d) ≡ 8)
  kept_words d h =
      let cleared = bitmap_clear-AreWords (s.bitmap d) p (w.words d h).0 in
      elim (Bool-cases (null (without t (D.nodes s.links (level_head c p))))) [
        | inr more ↦ rw more (w.words d h)
        | inl last ↦ elim (Bool-cases (c == d)) [
          | inl same ↦ rw (last, same, ==→eq c d same) (cleared.0, cleared.1 ∙ (w.words d h).1)
          | inr other ↦ rw (last, other) (w.words d h)
        ]
      ]

  -- Only the list of the thread loses a thread.
  other_level :
      (d q : ℕ)
      → (level_head c p == level_head d q) ≡ false
      → q < 256
      → without t (D.nodes s.links (level_head d q)) ≡ D.nodes s.links (level_head d q)
  other_level d q other h = elim (Bool-cases (mem t (D.nodes s.links (level_head d q)))) [
    | inr absent ↦ without_absent t (D.nodes s.links (level_head d q)) absent
    | inl present ↦
        let e = w.home t (level_head d q) present in
        let f = w.home t (level_head c p) here in
        absurd (ground (arith, eq→== (level_head c p) (level_head d q) (f ∙ sym e)))
  ]

  kept_marks :
      (d q : ℕ)
      → d < nr_cpus
      → q < 256
      → marked (taken.bitmap d) q ≡ not (null (D.nodes off (level_head d q)))
  kept_marks d q h g =
      let level_cp = D.nodes s.links (level_head c p) in
      let clear_mark =
        marked-bitmap_clear (s.bitmap c) p q (omega (arith, (w.words c cpu).1, level)) in
      let same = same_level c p d q level g in
      elim (Bool-cases (null (without t level_cp))) [
        | inr more ↦ rw (more, w.marks d q h g, off_nodes (level_head d q)) (kept d q g more)
        | inl last ↦ elim (Bool-cases (c == d)) [
          | inr other ↦
              rw (last, other, w.marks d q h g, off_nodes (level_head d q))
                (ap (λ xs. not (null xs)) (sym (other_level d q (ground arith) g)))
          | inl one_cpu ↦
              let marked_before = w.marks c q cpu g in
              rw
                (
                  last,
                  one_cpu,
                  clear_mark,
                  marked_before,
                  ← ==→eq c d one_cpu,
                  off_nodes (level_head c q),
                )
                (emptied q g last)
        ]
      ]
    where
      kept :
          (e r : ℕ)
          → r < 256
          → null (without t (D.nodes s.links (level_head c p))) ≡ false
          → not (null (D.nodes s.links (level_head e r)))
            ≡ not (null (without t (D.nodes s.links (level_head e r))))
      kept e r hr more = elim (Bool-cases (level_head c p == level_head e r)) [
        | inr other ↦ ap (λ xs. not (null xs)) (sym (other_level e r other hr))
        | inl at ↦
            rw (← ==→eq (level_head c p) (level_head e r) at, more)
              (rw (not-null_of_mem t (D.nodes s.links (level_head c p)) here) refl)
      ]

      emptied :
          (r : ℕ)
          → r < 256
          → null (without t (D.nodes s.links (level_head c p))) ≡ true
          → (not (p == r) && not (null (D.nodes s.links (level_head c r))))
            ≡ not (null (without t (D.nodes s.links (level_head c r))))
      emptied r hr last = elim (Bool-cases (p == r)) [
        | inl own ↦ rw (own, ← ==→eq p r own, last) refl
        | inr other ↦
            rw (other, other_level c r (ground (arith, same_level c p c r level hr)) hr) refl
      ]

  pub taken-IsConsistent : IsConsistent D nr_cpus taken
  taken-IsConsistent = record {
    small = w.small;
    home = kept_home;
    linked = kept_linked;
    words = kept_words;
    marks = kept_marks;
  }

  pub taken_order : (d : ℕ) → ready_list D taken d ≡ without t (ready_list D s d)
  unfolding ready_list
  taken_order d =
      flatten-without t (λ q. D.nodes s.links (level_head d q)) (λ q. D.nodes off (level_head d q))
        256 0 (λ q h. off_nodes (level_head d q))
