-- ===== src/Sched/Start.antt =====
-- The state that bitmap_rt_init leaves, and whole runs from there.
use ulmk_microkernel.Base.{
  ℕ, zero, suc, ◌+◌, ◌/◌, ◌%◌, ◌≤◌, ◌<◌, ◌≡◌, refl, ◌∙◌, sym, ap, ap₂, true, false, not, List, [],
  ◌∷◌, arith, ◌==◌, length, put_at, get_or, Bool-cases, inl, inr,
}
use ulmk_microkernel.Bits.{bit-zero}
use ulmk_microkernel.Dlist.{Dlist, mem, null}
use ulmk_microkernel.Sched.Words.{bitmap_words, CountsZeros, AreWords}
use ulmk_microkernel.Sched.Order.{flatten-none}
use ulmk_microkernel.Sched.Bitmap.{
  SchedThread, RunQueues, level_head, rq_of_cpu, bitmap_rt_init, init_levels, init_cpus, zero_words,
}
use ulmk_microkernel.Sched.Queue.{home_of, ready_list}
use ulmk_microkernel.Sched.Pick.{dequeue_refines, pick_next_refines}
use ulmk_microkernel.Sched.Runs.{
  Op, enqueue, dequeue, pick_next, run, spec_run, Holds, enqueue-Holds, without-Holds, pick-Holds,
}

zero_words-marked : (n i : ℕ) → get_or (zero_words n) i 0 ≡ 0
zero_words-marked zero i = refl
zero_words-marked (suc n) zero = refl
zero_words-marked (suc n) (suc i) = zero_words-marked n i

zero_words-AreWords : (n : ℕ) → AreWords (zero_words n) × (length (zero_words n) ≡ n)
zero_words-AreWords zero = (tt, refl)
zero_words-AreWords (suc n) =
    let (words, long) = zero_words-AreWords n in ((omega arith, words), ap suc long)

null_of_bare : (xs : List ℕ) → ((t : ℕ) → mem t xs ≡ false) → null xs ≡ true
null_of_bare [] h = refl
null_of_bare (x ∷ xs) h = absurd (ground (arith, h x))

-- No node carries pointers after the lists are initialised, when none did before.
init_levels-unlinked :
    (D : Dlist) (c n i : ℕ) (links : D.Links)
    → ((t : ℕ) → D.is_linked links t ≡ false)
    → (t : ℕ) → D.is_linked (init_levels D c n i links) t ≡ false
unfolding init_levels
init_levels-unlinked D c zero i links h = h
init_levels-unlinked D c (suc n) i links h =
    init_levels-unlinked D c n (i + 1) (D.list_init links (level_head c i))
      (λ t. D.linked-list_init links (level_head c i) t ∙ h t)

-- What the loop over the CPUs leaves.
record Blank (D : Dlist) (n c : ℕ) (s s' : RunQueues D) : Type 0 where
  unlinked : (t : ℕ) → D.is_linked s'.links t ≡ false
  same_threads : s'.thread ≡ s.thread
  zeroed : (d : ℕ) → c ≤ d → d < c + n → s'.bitmap d ≡ zero_words bitmap_words
  others : (d : ℕ) → d < c → s'.bitmap d ≡ s.bitmap d

init_cpus-Blank :
    (D : Dlist) (n c : ℕ) (s : RunQueues D)
    → ((t : ℕ) → D.is_linked s.links t ≡ false)
    → Blank D n c s (init_cpus D n c s)
unfolding init_cpus
init_cpus-Blank D zero c s h = record {
  unlinked = h;
  same_threads = refl;
  zeroed = λ d lo hi. absurd (omega arith);
  others = λ d lo. refl;
}
init_cpus-Blank D (suc n) c s h =
    let one = record s {
      bitmap = put_at s.bitmap c (zero_words bitmap_words);
      links = init_levels D c 256 0 s.links;
    } in
    let rest = init_cpus-Blank D n (c + 1) one (init_levels-unlinked D c 256 0 s.links h) in
    record {
      unlinked = rest.unlinked;
      same_threads = rest.same_threads;
      zeroed = λ d lo hi. elim (Bool-cases (c == d)) [
        | inl here ↦ rest.others d (ground arith) ∙ rw here refl
        | inr other ↦ rest.zeroed d (ground arith) (omega arith)
      ];
      others = λ d lo.
          let other : (c == d) ≡ false = ground arith in
          rest.others d (omega arith) ∙ rw other refl;
    }

module _ (D : Dlist) (nr_cpus : ℕ) (s : RunQueues D)
    (unlinked : (t : ℕ) → D.is_linked s.links t ≡ false) where
  pub init-unlinked : (t : ℕ) → D.is_linked (bitmap_rt_init D nr_cpus s).links t ≡ false
  unfolding bitmap_rt_init
  init-unlinked = (init_cpus-Blank D nr_cpus 0 s unlinked).unlinked

  pub init-threads : (bitmap_rt_init D nr_cpus s).thread ≡ s.thread
  unfolding bitmap_rt_init
  init-threads = (init_cpus-Blank D nr_cpus 0 s unlinked).same_threads

  pub init-Holds :
      ((t : ℕ) → (s.thread t).priority < 256)
      → Holds nr_cpus s.thread D (bitmap_rt_init D nr_cpus s) (λ _. [])
  unfolding bitmap_rt_init ready_list
  init-Holds small =
      let b = init_cpus-Blank D nr_cpus 0 s unlinked in
      let after = bitmap_rt_init D nr_cpus s in
      let zeroed : (c : ℕ) → c < nr_cpus → after.bitmap c ≡ zero_words bitmap_words =
        λ c h. b.zeroed c (omega arith) (omega arith) in
      let bare : (l t : ℕ) → mem t (D.nodes after.links l) ≡ false = λ l t.
        elim (Bool-cases (mem t (D.nodes after.links l))) [
          | inl m ↦ absurd (ground (arith, D.linked_of_mem after.links l t m, b.unlinked t))
          | inr off ↦ off
        ] in
      record {
        consistent = record {
          small = λ t. rw b.same_threads (small t);
          home = λ t l m. absurd (ground (arith, bare l t));
          linked = λ t. b.unlinked t ∙ sym (bare (home_of nr_cpus after.thread t) t);
          words = λ c h. rw (zeroed c h) (zero_words-AreWords bitmap_words);
          marks = λ c p h g.
              rw (zeroed c h, zero_words-marked bitmap_words (p / 32), bit-zero (p % 32))
                (ap not (sym (null_of_bare _ (bare (level_head c p)))));
        };
        priorities = ap {B = ℕ → ℕ} (λ (f : ℕ → SchedThread) u. (f u).priority) b.same_threads;
        cpus = ap {B = ℕ → ℕ} (λ (f : ℕ → SchedThread) u. (f u).cpu) b.same_threads;
        lists = λ c.
            flatten-none (λ p. D.nodes after.links (level_head c p)) 256 0
              (λ p h. null_of_bare _ (bare (level_head c p)));
      }

module _ (D : Dlist) (nr_cpus : ℕ) (clz : ℕ → ℕ) (counts : CountsZeros clz) (some_cpu : 0 < nr_cpus)
    (few_cpus : nr_cpus < 256) (thread : ℕ → SchedThread) where
  run-spec_run :
      (ops : List Op) (s : RunQueues D) (q : ℕ → List ℕ)
      → Holds nr_cpus thread D s q
      → run D nr_cpus clz s ops ≡ spec_run nr_cpus thread q ops
  unfolding run spec_run
  run-spec_run [] s q h = refl
  run-spec_run (enqueue t ∷ ops) s q h =
      run-spec_run ops _ _ (enqueue-Holds D nr_cpus thread s q h t)
  run-spec_run (dequeue t ∷ ops) s q h = run-spec_run ops _ _ (
      without-Holds D nr_cpus thread s q h _ t
        (dequeue_refines D nr_cpus s t some_cpu few_cpus h.consistent))
  run-spec_run (pick_next me ∷ ops) s q h =
      let (first, kept) =
        pick-Holds D nr_cpus thread s q h (rq_of_cpu nr_cpus (me % 256)) _ _
          (pick_next_refines D nr_cpus clz s me counts some_cpu few_cpus h.consistent).0 in
      ap₂ (λ r rs. r ∷ rs) first (run-spec_run ops _ _ kept)

-- From bitmap_rt_init, with no thread linked, every run of enqueues, dequeues and picks on any CPUs
-- picks the threads that the lists pick: of each CPU the thread of the lowest priority number, and
-- of those the one queued longest, without those dequeued since.
pub runs_refine :
    (D : Dlist) (nr_cpus : ℕ) (clz : ℕ → ℕ) (s : RunQueues D) (ops : List Op)
    → CountsZeros clz
    → 0 < nr_cpus
    → nr_cpus < 256
    → ((t : ℕ) → D.is_linked s.links t ≡ false)
    → ((t : ℕ) → (s.thread t).priority < 256)
    → run D nr_cpus clz (bitmap_rt_init D nr_cpus s) ops ≡ spec_run nr_cpus s.thread (λ _. []) ops
runs_refine D nr_cpus clz s ops counts some_cpu few_cpus unlinked small =
    run-spec_run D nr_cpus clz counts some_cpu few_cpus s.thread ops _ _
      (init-Holds D nr_cpus s unlinked small)
