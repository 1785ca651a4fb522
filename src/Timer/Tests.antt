-- ===== src/Timer/Tests.antt =====
-- Runs of the timing wheel, and its theorems at concrete inputs.
use ulmk_microkernel.Base.{
  ℕ, ◌+◌, ◌*◌, ◌/◌, ◌%◌, ◌<◌, ◌≡◌, refl, true, false, not, ◌&&◌, [], ◌∷◌, ◌==◌, arith,
}
use ulmk_microkernel.Dlist.Sample.{sample, no_links}
use ulmk_microkernel.Timer.Index.{
  u64_mod, lvl_gran, round_up, calc_index, level_loop, calc_wheel_index, is_edge, edge_bucket,
}
use ulmk_microkernel.Timer.Expiry.{is_due, due_too_early}
use ulmk_microkernel.Timer.Wheel.{
  Timers, bucket_at, detach, place, add, cancel, move_nodes, collect_bucket, collect_level,
  collect_levels, wheel_advance_collect, fresh_list, expire_list, expire_all, tick,
}
use ulmk_microkernel.Timer.Places.{holds}
use ulmk_microkernel.Timer.Collect.{IsWheel, IsParked, Expired, taken_by}
use ulmk_microkernel.Timer.Tick.{advance-Expired}
use ulmk_microkernel.Timer.Drain.{IsCallback, Drains, expire_all-Drains}
use ulmk_microkernel.Timer.Add.{added, added-Placed, Placed, cancel_lem}
use ulmk_microkernel.Timer.Deadline.{ticks, expires_on_time}

-- 511 ticks from clock 4: level 1, bucket 1, which is due at clock 8.
wraps_round : calc_wheel_index (4 + 511) 4 ≡ (1, 1)
unfolding calc_wheel_index level_loop calc_index round_up
wraps_round = refl

abbrev wheel : Timers sample
wheel = record {
  links = no_links;
  clk = 4;
  pending = 0 ∷ 0 ∷ 0 ∷ 0 ∷ 0 ∷ [];
  expires = λ _. 0;
  cb = λ _. 1;
}

abbrev no_op : ℕ → ℕ → Timers sample → Timers sample
no_op cb n t = t

early_run : (ticks sample no_op 3 (add sample wheel 7 511).1).clk ≡ 7
unfolding ticks tick fresh_list add place detach calc_wheel_index level_loop calc_index round_up
    wheel_advance_collect collect_levels collect_level collect_bucket move_nodes is_edge edge_bucket
    expire_all expire_list
early_run = refl

wheel-IsWheel : IsWheel sample wheel
wheel-IsWheel = record {
  tidy = λ n linked. absurd (ground arith);
  words = refl;
  covered = λ l b n hl hb h. absurd (ground arith);
}

no_op-IsCallback : IsCallback sample no_op
no_op-IsCallback = record {
  keeps = λ cb n t w. w;
  same_clk = λ cb n t. refl;
  adds_none = λ cb n t. omega arith;
}

due_too_early_example :
    let (lvl, bucket) = calc_wheel_index 515 4 in
    let early = 4 / lvl_gran lvl * lvl_gran lvl + lvl_gran lvl in
    (4 < early) × (early < 515) × (is_due lvl bucket early ≡ true)
unfolding round_up
due_too_early_example = due_too_early 4 511 (omega arith) (omega arith) (omega arith)

-- Timer 7 is due at the next tick.
abbrev due_next : Timers sample
due_next = added sample wheel 7 1

due_next-IsWheel : IsWheel sample due_next
due_next-IsWheel = (added-Placed sample wheel 7 1 (omega arith) (omega arith) wheel-IsWheel).0.wheel

abbrev taken : Timers sample
taken = wheel_advance_collect sample due_next

advance-Expired_example :
    Expired sample
      (record due_next { clk = (due_next.clk + 1) % u64_mod })
      taken
      (taken_by sample 5 0 (record due_next { clk = (due_next.clk + 1) % u64_mod }))
advance-Expired_example = advance-Expired sample due_next due_next-IsWheel

taken-IsWheel : IsWheel sample taken
taken-IsWheel = (advance-Expired sample due_next due_next-IsWheel).wheel

expire_all-Drains_example :
    Drains sample no_op no_op-IsCallback taken (expire_all sample no_op taken)
expire_all-Drains_example = expire_all-Drains sample no_op no_op-IsCallback taken taken-IsWheel

added-Placed_example :
    Placed sample wheel (added sample wheel 7 100) 7 1 (calc_index 104 1)
    × ((added sample wheel 7 100).expires 7 ≡ 104)
added-Placed_example = added-Placed sample wheel 7 100 (omega arith) (omega arith) wheel-IsWheel

cancel_lem_example :
    let (removed, u) = cancel sample due_next 7 in
    (removed ≡ sample.is_linked due_next.links 7)
    × (sample.is_linked u.links 7 ≡ false)
    × ((i m : ℕ) → holds sample u.links i m ≡ (not (7 == m) && holds sample due_next.links i m))
    × IsWheel sample u
cancel_lem_example = cancel_lem sample due_next 7 due_next-IsWheel

expires_on_time_example :
    IsParked sample
      (ticks sample no_op 50 (added sample wheel 7 100))
      7
      (bucket_at 1 (calc_index 104 1))
unfolding round_up
expires_on_time_example =
    (expires_on_time sample no_op wheel 7 100 no_op-IsCallback (λ cb n t i. refl) wheel-IsWheel refl
        (omega arith) (omega arith) (omega arith)).2
      50 (omega arith)
