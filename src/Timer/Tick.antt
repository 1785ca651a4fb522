-- ===== src/Timer/Tick.antt =====
-- The rounds of a tick over the levels (wheel_advance_collect).
use ulmk_microkernel.Base.{ℕ, zero, suc, ◌+◌, ◌%◌, ◌≤◌, ◌≡◌, refl, ◌∙◌, Bool, not, ◌&&◌, arith}
use ulmk_microkernel.Dlist.{Dlist}
use ulmk_microkernel.Timer.Index.{lvl_depth, u64_mod, edge_bucket}
use ulmk_microkernel.Timer.Wheel.{
  Timers, bucket_at, collect_level, collect_levels, wheel_advance_collect,
}
use ulmk_microkernel.Timer.Collect.{
  IsWheel, Expired, taken_at, taken_by, collect_level-Expired, Expired-none, out-ne-bucket,
  edge_bucket-lt,
}

module _ (D : Dlist) where
  -- What a round has taken, no later round takes again.
  taken_after :
      (n lvl : ℕ) (t u : Timers D) (f : ℕ → Bool)
      → lvl + n ≤ lvl_depth
      → Expired D t u f
      → (m : ℕ) → taken_by D n lvl u m ≡ (not (f m) && taken_by D n lvl t m)
  taken_after zero lvl t u f h x m = ground arith
  taken_after (suc n) lvl t u f h x m = rw x.same_clk (
      ground (
        arith,
        x.place (bucket_at lvl (edge_bucket lvl t.clk)) m,
        out-ne-bucket lvl (edge_bucket lvl t.clk) (omega arith) (edge_bucket-lt lvl t.clk),
        taken_after n (lvl + 1) t u f (omega arith) x m,
      ))

  collect_levels-Expired :
      (n lvl : ℕ) (t : Timers D)
      → lvl + n ≤ lvl_depth
      → IsWheel D t
      → Expired D t (collect_levels D n lvl t) (taken_by D n lvl t)
  unfolding collect_levels
  collect_levels-Expired zero lvl t h w = Expired-none D t _ (λ m. refl) w
  collect_levels-Expired (suc n) lvl t h w =
      let first = collect_level-Expired D t lvl (omega arith) w in
      let rest =
        collect_levels-Expired n (lvl + 1) (collect_level D t lvl) (omega arith) first.wheel in
      record {
        wheel = rest.wheel;
        place = λ i m. ground (
          arith,
          rest.place i m,
          first.place i m,
          taken_after n (lvl + 1) t (collect_level D t lvl) (taken_at D t lvl) (omega arith) first
              m,
        );
        same_clk = rest.same_clk ∙ first.same_clk;
        same_linked = λ m. rest.same_linked m ∙ first.same_linked m;
      }

  clock_moved : (t : Timers D) (c : ℕ) → IsWheel D t → IsWheel D (record t { clk = c })
  clock_moved t c w = record { tidy = w.tidy; words = w.words; covered = w.covered }

  -- wheel_advance_collect takes the timers of the buckets that are due at the new clock, moves them
  -- to the list of the expired, and leaves every other timer on the list where it was.
  pub advance-Expired :
      (t : Timers D)
      → IsWheel D t
      → let t' = record t { clk = (t.clk + 1) % u64_mod } in
        Expired D t' (wheel_advance_collect D t) (taken_by D lvl_depth 0 t')
  unfolding wheel_advance_collect
  advance-Expired t w =
      collect_levels-Expired lvl_depth 0 (record t { clk = (t.clk + 1) % u64_mod }) (omega arith)
        (clock_moved t _ w)
