-- ===== src/Sleep/Tests.antt =====
-- Runs of sleep, and its theorems at concrete inputs.
use ulmk_microkernel.Base.{
  ◌*◌, ◌+◌, ◌<◌, ◌≤◌, ◌≡◌, ◌≢◌, ℕ, ◌==◌, false, ◌⊎◌, refl, true, some, [], ◌∷◌, arith, ok, einval,
}
use ulmk_microkernel.Dlist.Sample.{sample, no_links}
use ulmk_microkernel.Timer.Index.{timeout_max, u64_mod}
use ulmk_microkernel.Timer.Wheel.{Timers}
use ulmk_microkernel.Timer.Add.{added}
use ulmk_microkernel.Sleep.Timeout.{ms_to_ticks, Sleepers, kern_sleep, is_asleep, sleep_cancel}
use ulmk_microkernel.Sleep.Cancel.{Cancelled, sleep_cancel-Cancelled}
use ulmk_microkernel.Timer.Collect.{IsWheel}
use ulmk_microkernel.Sleep.Outcome.{ms_to_ticks_bounds, sleep_outcome, rearmed}

abbrev idle_wheel : Timers sample
idle_wheel = record {
  links = no_links;
  clk = 4;
  pending = 0 ∷ 0 ∷ 0 ∷ 0 ∷ 0 ∷ [];
  expires = λ _. 0;
  cb = λ _. 0;
}

abbrev sleepers : Sleepers sample
sleepers = record {
  timers = idle_wheel;
  thread = λ _. record { state = 2; reason = 0; block_status = 0 };
  calls = [];
}

-- At 100 ticks a second.
rounds_up : ms_to_ticks 100 11 ≡ 2
unfolding ms_to_ticks
rounds_up = refl

ms_to_ticks_bounds_example :
    let ticks = ms_to_ticks 100 11 in
    (ticks ≡ 0 → timeout_max * 1000 < 11 * 100)
    × (ticks ≢ 0
        → (ticks ≤ timeout_max)
          × (11 * 100 ≤ ticks * 1000)
          × ((ticks ≡ 1) ⊎ (ticks * 1000 < 11 * 100 + 1000)))
ms_to_ticks_bounds_example = ms_to_ticks_bounds 100 11

sleep_outcome_example :
    (ms_to_ticks 100 11 ≡ 0 → kern_sleep sample 100 9 sleepers (some 64) 11 ≡ (einval, sleepers))
    × (ms_to_ticks 100 11 ≢ 0
        → let (rc, k) = kern_sleep sample 100 9 sleepers (some 64) 11 in
          (rc ≡ ok)
          × (is_asleep sample k 64 ≡ true)
          × (k.timers ≡ added sample (rearmed sample idle_wheel 64 9) 64 (ms_to_ticks 100 11)))
sleep_outcome_example = sleep_outcome sample 100 9 sleepers 64 11 (λ e. ground arith)

idle_wheel-IsWheel : IsWheel sample idle_wheel
idle_wheel-IsWheel = record {
  tidy = λ n linked. absurd (ground arith);
  words = refl;
  covered = λ l b n hl hb h. absurd (ground arith);
}

two_ticks : ms_to_ticks 100 11 ≢ 0
unfolding ms_to_ticks
two_ticks e = ground arith

soon : 4 + ms_to_ticks 100 11 < u64_mod
unfolding ms_to_ticks
soon = omega arith

sleep_cancel-Cancelled_example :
    let (rc, k) = sleep_cancel sample (kern_sleep sample 100 9 sleepers (some 64) 11).1 (some 64) in
    (rc ≡ ok)
    × Cancelled sample idle_wheel k 64
    × ((v : ℕ) → (64 == v) ≡ false → k.thread v ≡ sleepers.thread v)
sleep_cancel-Cancelled_example =
    sleep_cancel-Cancelled sample 100 9 sleepers 64 11 (λ e. ground arith) two_ticks soon
      idle_wheel-IsWheel
