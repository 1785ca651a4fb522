-- ===== src/Timer/Deadline.antt =====
-- From ulmk_timer_add to expiry: the ticks in between and the tick that takes the timer.
use ulmk_microkernel.Base.{
  ℕ, zero, suc, ◌+◌, ◌%◌, ◌≤◌, ◌<◌, ◌≡◌, refl, sym, ◌∙◌, Bool, true, false, ◌&&◌, ◌||◌, arith, List,
  [], ◌∷◌, ◌==◌, if◌then◌else◌, ==→eq, Bool-cases, inl, inr, length,
}
use ulmk_microkernel.Dlist.{Dlist, mem}
use ulmk_microkernel.Timer.Index.{
  lvl_size, lvl_depth, u64_mod, lvl_gran, timeout_max, round_up, calc_index, edge_bucket,
}
use ulmk_microkernel.Timer.Expiry.{
  level_of, level_of-IsLevel, is_due, lap_end, due_at_round_up, not_due_before, round_up_bounds,
}
use ulmk_microkernel.Timer.Wheel.{
  Timers, bucket_at, out_list, fresh_list, wheel_advance_collect, tick,
}
use ulmk_microkernel.Timer.Places.{holds}
use ulmk_microkernel.Timer.Collect.{
  IsWheel, IsParked, taken_at, taken_by, same_bucket, out-ne-bucket, edge_bucket-lt,
}
use ulmk_microkernel.Timer.Tick.{advance-Expired}
use ulmk_microkernel.Timer.Drain.{
  IsDrained, IsCallback, Spares, expire_all-Drains, expire_all-Spares, expire_all-clk,
}
use ulmk_microkernel.Timer.Add.{effective, added, added-Placed, calc_index-lt}

empty_mem : (m : ℕ) (xs : List ℕ) → length xs ≡ 0 → mem m xs ≡ false
empty_mem m [] e = refl
empty_mem m (x ∷ xs) e = absurd (omega arith)

length_of_mem : (xs : List ℕ) → ((m : ℕ) → mem m xs ≡ false) → length xs ≡ 0
length_of_mem [] h = refl
length_of_mem (x ∷ xs) h = ground (arith, h x)

next_clk : (c : ℕ) → c + 1 < u64_mod → (c + 1) % u64_mod ≡ c + 1
next_clk c h = omega arith

bucket-eq :
    (lvl bucket k b : ℕ)
    → bucket < lvl_size
    → b < lvl_size
    → (bucket_at lvl bucket == bucket_at k b) ≡ (lvl == k && b == bucket)
bucket-eq lvl bucket k b h1 h2 = ground (arith, same_bucket lvl bucket k b h1 h2)

gran_bound : (lvl : ℕ) → lvl < lvl_depth → lvl_gran lvl ≤ 4096
gran_bound zero h = omega arith
gran_bound (suc zero) h = omega arith
gran_bound (suc (suc zero)) h = omega arith
gran_bound (suc (suc (suc zero))) h = omega arith
gran_bound (suc (suc (suc (suc zero)))) h = omega arith
gran_bound (suc (suc (suc (suc (suc n))))) h = absurd (omega arith)

one_level :
    (f : ℕ → Bool) (lvl : ℕ)
    → lvl < lvl_depth
    → (lvl == 0 && f 0
        || (lvl == 1 && f 1
            || (lvl == 2 && f 2 || (lvl == 3 && f 3 || (lvl == 4 && f 4 || false)))))
      ≡ f lvl
one_level f zero h = ground arith
one_level f (suc zero) h = ground arith
one_level f (suc (suc zero)) h = ground arith
one_level f (suc (suc (suc zero))) h = ground arith
one_level f (suc (suc (suc (suc zero)))) h = ground arith
one_level f (suc (suc (suc (suc (suc n))))) h = absurd (omega arith)

module _ (D : Dlist) where
  -- A timer on a bucket is taken by the round of its level, if the bucket is due.
  taken_at-parked :
      (t : Timers D) (to lvl bucket k : ℕ)
      → bucket < lvl_size
      → IsParked D t to (bucket_at lvl bucket)
      → taken_at D t k to ≡ (lvl == k && is_due k bucket t.clk)
  taken_at-parked t to lvl bucket k hb p = ground (
    arith,
    p (bucket_at k (edge_bucket k t.clk)),
    bucket-eq lvl bucket k (edge_bucket k t.clk) hb (edge_bucket-lt k t.clk),
  )

  taken_by-parked :
      (t : Timers D) (to lvl bucket : ℕ)
      → lvl < lvl_depth
      → bucket < lvl_size
      → IsParked D t to (bucket_at lvl bucket)
      → taken_by D lvl_depth 0 t to ≡ is_due lvl bucket t.clk
  taken_by-parked t to lvl bucket hl hb p =
      let at = λ (k : ℕ). taken_at-parked t to lvl bucket k hb p in
      rw (at 0, at 1, at 2, at 3, at 4) (one_level (λ k. is_due k bucket t.clk) lvl hl)

  -- At a tick, a timer on a bucket goes to the list of the expired just when the bucket is due.
  advance-parked :
      (t : Timers D) (to lvl bucket : ℕ)
      → lvl < lvl_depth
      → bucket < lvl_size
      → t.clk + 1 < u64_mod
      → IsWheel D t
      → IsParked D t to (bucket_at lvl bucket)
      → (i : ℕ)
      → holds D (wheel_advance_collect D t).links i to
        ≡ ((if is_due lvl bucket (t.clk + 1) then out_list else bucket_at lvl bucket) == i)
  advance-parked t to lvl bucket hl hb hc w p i =
      let t' = record t { clk = (t.clk + 1) % u64_mod } in
      ground (
        arith,
        (advance-Expired D t w).place i to,
        taken_by-parked t' to lvl bucket hl hb p,
        next_clk t.clk hc,
        p i,
      )

  -- A wheel between two ticks, with a timer on the bucket of its level.
  pub record IsArmed (t : Timers D) (to lvl bucket : ℕ) : Type 0 where
    pub wheel : IsWheel D t
    pub drained : IsDrained D t
    pub parked : IsParked D t to (bucket_at lvl bucket)

  holds-fresh :
      (t : Timers D)
      → IsDrained D t
      → (i m : ℕ) → holds D (fresh_list D t).links i m ≡ holds D t.links i m
  unfolding fresh_list
  holds-fresh t e i m = ground (
    arith,
    D.nodes-list_init t.links out_list i,
    empty_mem m (D.nodes t.links out_list) e,
    ==→eq out_list i,
  )

  fresh_list-IsWheel : (t : Timers D) → IsDrained D t → IsWheel D t → IsWheel D (fresh_list D t)
  unfolding fresh_list
  fresh_list-IsWheel t e w = record {
    tidy = λ n linked.
        let (l, there) = w.tidy n (sym (D.linked-list_init t.links out_list n) ∙ linked) in
        (l, holds-fresh t e l n ∙ there);
    words = w.words;
    covered = λ l b n hl hb h. w.covered l b n hl hb (sym (holds-fresh t e (bucket_at l b) n) ∙ h);
  }

  -- A tick at which the bucket is not due leaves the timer armed.
  tick-IsArmed :
      (run : ℕ → ℕ → Timers D → Timers D) (t : Timers D) (to lvl bucket : ℕ)
      → IsCallback D run
      → Spares D run to
      → lvl < lvl_depth
      → bucket < lvl_size
      → t.clk + 1 < u64_mod
      → is_due lvl bucket (t.clk + 1) ≡ false
      → IsArmed t to lvl bucket
      → IsArmed (tick D run t) to lvl bucket × ((tick D run t).clk ≡ t.clk + 1)
  unfolding tick fresh_list
  tick-IsArmed run t to lvl bucket c sp hl hb hc off a =
      let start = fresh_list D t in
      let w = fresh_list-IsWheel t a.drained a.wheel in
      let p = λ (i : ℕ). holds-fresh t a.drained i to ∙ a.parked i in
      let mid = wheel_advance_collect D start in
      let moved = λ (i : ℕ). advance-parked start to lvl bucket hl hb hc w p i in
      let drains = expire_all-Drains D run c mid (advance-Expired D start w).wheel in
      let kept =
        expire_all-Spares D run c to mid sp
          (ground (arith, moved out_list, out-ne-bucket lvl bucket hl hb)) in
      (
        record {
          wheel = drains.wheel;
          drained = drains.empty;
          parked = λ i. kept i ∙ ground (arith, moved i);
        },
        expire_all-clk D run c mid ∙ (advance-Expired D start w).same_clk ∙ next_clk t.clk hc,
      )

  -- `k` ticks in a row.
  unfoldable pub ticks : (ℕ → ℕ → Timers D → Timers D) → ℕ → Timers D → Timers D
  ticks run zero t = t
  ticks run (suc k) t = ticks run k (tick D run t)

  ticks-IsArmed :
      (run : ℕ → ℕ → Timers D → Timers D) (k : ℕ) (t : Timers D) (to lvl bucket : ℕ)
      → IsCallback D run
      → Spares D run to
      → lvl < lvl_depth
      → bucket < lvl_size
      → t.clk + k < u64_mod
      → ((j : ℕ) → t.clk < j → j ≤ t.clk + k → is_due lvl bucket j ≡ false)
      → IsArmed t to lvl bucket
      → IsArmed (ticks run k t) to lvl bucket × ((ticks run k t).clk ≡ t.clk + k)
  unfolding ticks
  ticks-IsArmed run zero t to lvl bucket c sp hl hb hc off a = (a, omega arith)
  ticks-IsArmed run (suc k) t to lvl bucket c sp hl hb hc off a =
      let (a1, e) =
        tick-IsArmed run t to lvl bucket c sp hl hb (omega arith)
          (off (t.clk + 1) (omega arith) (omega arith)) a in
      let (a2, e2) =
        ticks-IsArmed run k (tick D run t) to lvl bucket c sp hl hb (omega arith)
          (λ j h1 h2. off j (omega arith) (omega arith)) a1 in
      (a2, omega arith)

  added-IsDrained :
      (t : Timers D) (to delta : ℕ)
      → effective delta ≤ timeout_max
      → t.clk + effective delta < u64_mod
      → IsWheel D t
      → IsDrained D t
      → IsDrained D (added D t to delta)
  added-IsDrained t to delta h hw w e =
      let lvl = level_of (effective delta) in
      let due = t.clk + effective delta in
      let p = (added-Placed D t to delta h hw w).0 in
      length_of_mem (D.nodes (added D t to delta).links out_list) λ m. elim (Bool-cases (to == m)) [
        | inl same ↦ ground (
          arith,
          p.parked out_list,
          out-ne-bucket lvl (calc_index due lvl) (level_of-IsLevel (effective delta))
              (calc_index-lt due lvl),
          ==→eq to m,
        )
        | inr other ↦ p.others m other out_list ∙ empty_mem m (D.nodes t.links out_list) e
      ]

  advance_fresh :
      (t : Timers D) (to lvl bucket : ℕ)
      → lvl < lvl_depth
      → bucket < lvl_size
      → t.clk + 1 < u64_mod
      → IsArmed t to lvl bucket
      → is_due lvl bucket (t.clk + 1) ≡ true
      → (i : ℕ) → holds D (wheel_advance_collect D (fresh_list D t)).links i to ≡ (out_list == i)
  unfolding fresh_list
  advance_fresh t to lvl bucket hl hb hc a due i =
      let w = fresh_list-IsWheel t a.drained a.wheel in
      let p = λ (j : ℕ). holds-fresh t a.drained j to ∙ a.parked j in
      ground (arith, advance-parked (fresh_list D t) to lvl bucket hl hb hc w p i)

  ticks-IsArmed_until :
      (run : ℕ → ℕ → Timers D → Timers D) (t : Timers D) (to delta : ℕ)
      → IsCallback D run
      → Spares D run to
      → IsWheel D t
      → IsDrained D t
      → effective delta ≤ timeout_max
      → t.clk + effective delta + 4096 < u64_mod
      → round_up (t.clk + effective delta) (level_of (effective delta))
        ≤ lap_end (level_of (effective delta)) t.clk
      → let due = t.clk + effective delta in
        let lvl = level_of (effective delta) in
        (k : ℕ)
        → t.clk + k < round_up due lvl
        → IsArmed (ticks run k (added D t to delta)) to lvl (calc_index due lvl)
          × ((ticks run k (added D t to delta)).clk ≡ t.clk + k)
  ticks-IsArmed_until run t to delta c sp w e h hw lap k hk =
      let due = t.clk + effective delta in
      let lvl = level_of (effective delta) in
      let hl = level_of-IsLevel (effective delta) in
      let p = (added-Placed D t to delta h (omega arith) w).0 in
      let armed : IsArmed (added D t to delta) to lvl (calc_index due lvl) = record {
        wheel = p.wheel;
        drained = added-IsDrained t to delta h (omega arith) w e;
        parked = p.parked;
      } in
      let bounds = round_up_bounds lvl due hl hw in
      let same : (added D t to delta).clk ≡ t.clk = p.same_clk in
      let (a, now) =
        ticks-IsArmed run k (added D t to delta) to lvl (calc_index due lvl) c sp hl
          (calc_index-lt due lvl) (omega (arith, gran_bound lvl hl))
          (λ j h1 h2. not_due_before lvl t.clk due j hl hw (omega arith) (omega arith) lap) armed in
      (a, omega arith)

  -- The whole path of a timer. Added to a wheel between two ticks, for an effective delta of at most
  -- ULMK_TIMER_TIMEOUT_MAX whose rounded expiry lies within the lap of its level, with callbacks that
  -- leave this timer alone: after every number of ticks that ends before the rounded expiry it is
  -- still on its bucket and on no other list, and the tick to the rounded expiry puts it on the list
  -- that is expired. That tick is at `clk + delta` or later, by less than the level's granule.
  pub expires_on_time :
      (run : ℕ → ℕ → Timers D → Timers D) (t : Timers D) (to delta : ℕ)
      → IsCallback D run
      → Spares D run to
      → IsWheel D t
      → IsDrained D t
      → effective delta ≤ timeout_max
      → t.clk + effective delta + 4096 < u64_mod
      → round_up (t.clk + effective delta) (level_of (effective delta))
        ≤ lap_end (level_of (effective delta)) t.clk
      → let due = t.clk + effective delta in
        let lvl = level_of (effective delta) in
        let at = round_up due lvl in
        (due ≤ at)
        × (at < due + lvl_gran lvl)
        × ((k : ℕ)
            → t.clk + k < at
            → IsParked D (ticks run k (added D t to delta)) to (bucket_at lvl (calc_index due lvl)))
        × ((k : ℕ)
            → t.clk + suc k ≡ at
            → (i : ℕ)
            → holds D
                (wheel_advance_collect D (fresh_list D (ticks run k (added D t to delta)))).links
                i
                to
              ≡ (out_list == i))
  expires_on_time run t to delta c sp w e h hw lap =
      let due = t.clk + effective delta in
      let lvl = level_of (effective delta) in
      let at = round_up due lvl in
      let hl = level_of-IsLevel (effective delta) in
      let hb = calc_index-lt due lvl in
      let bounds = round_up_bounds lvl due hl hw in
      (
        bounds.0,
        bounds.1,
        λ k hk. (ticks-IsArmed_until run t to delta c sp w e h hw lap k hk).0.parked,
        λ k hk i.
            let (a, now) = ticks-IsArmed_until run t to delta c sp w e h hw lap k (omega arith) in
            advance_fresh (ticks run k (added D t to delta)) to lvl (calc_index due lvl) hl hb
              (omega (arith, gran_bound lvl hl)) a
              (let e2 : (ticks run k (added D t to delta)).clk + 1 ≡ at = omega arith in
                rw e2 (due_at_round_up lvl t.clk due hl hw))
              i,
      )
