-- ===== src/Timer/Expiry.antt =====
-- When a timer that ulmk_timer_add has put in a bucket is expired by the ticks that follow.
use ulmk_microkernel.Base.{
  ℕ, zero, suc, ◌+◌, ◌-◌, ◌*◌, ◌/◌, ◌%◌, ◌≤◌, ◌<◌, ◌≡◌, ◌≢◌, Bool, true, false, ◌&&◌, arith, ltb,
  ◌==◌, if◌then◌else◌,
}
use ulmk_microkernel.Timer.Index.{
  lvl_depth, u64_mod, lvl_gran, timeout_max, round_up, calc_index, level_loop, calc_wheel_index,
  is_edge, edge_bucket,
}

-- The expiry loop takes this bucket at `clk`.
abbrev pub is_due : ℕ → ℕ → ℕ → Bool
is_due lvl bucket clk = is_edge lvl clk && (edge_bucket lvl clk == bucket)

-- The level of a delta.
abbrev pub level_of : ℕ → ℕ
level_of delta =
    if ltb delta 64
    then 0
    else (if ltb delta 512
        then 1
        else (if ltb delta 4096 then 2 else (if ltb delta 32768 then 3 else 4)))

level_loop_level :
    (expires delta : ℕ)
    → level_loop lvl_depth 0 expires delta ≡ (level_of delta, calc_index expires (level_of delta))
unfolding level_loop
level_loop_level expires delta = ground arith

elapsed : (clk delta : ℕ) → clk + delta < u64_mod → (clk + delta + u64_mod - clk) % u64_mod ≡ delta
elapsed clk delta h = omega arith

pub calc_wheel_index_level :
    (clk delta : ℕ)
    → clk + delta < u64_mod
    → delta ≤ timeout_max
    → calc_wheel_index (clk + delta) clk
      ≡ (level_of delta, calc_index (clk + delta) (level_of delta))
unfolding calc_wheel_index
calc_wheel_index_level clk delta hw hd =
    rw (elapsed clk delta hw) (ground (arith, level_loop_level (clk + delta) delta))

-- In granules: from `c` on, the first slot with the number of `e` is `e`.
slot-ne : (c e j : ℕ) → c < j → j < e → e ≤ c + 64 → j % 64 ≢ e % 64
slot-ne c e j h1 h2 h3 = omega arith

-- The granules of a level, for the levels that there are.
abbrev pub IsLevel : ℕ → Type 0
IsLevel lvl = lvl < lvl_depth

pub due_at_round_up :
    (lvl clk expires : ℕ)
    → IsLevel lvl
    → expires + 4096 < u64_mod
    → is_due lvl (calc_index expires lvl) (round_up expires lvl) ≡ true
unfolding calc_index round_up is_edge edge_bucket
due_at_round_up zero clk e h hw = ground arith
due_at_round_up (suc zero) clk e h hw = ground arith
due_at_round_up (suc (suc zero)) clk e h hw = ground arith
due_at_round_up (suc (suc (suc zero))) clk e h hw = ground arith
due_at_round_up (suc (suc (suc (suc zero)))) clk e h hw = ground arith
due_at_round_up (suc (suc (suc (suc (suc n))))) clk e h hw = absurd (omega arith)

pub not_due_before :
    (lvl clk expires k : ℕ)
    → IsLevel lvl
    → expires + 4096 < u64_mod
    → clk < k
    → k < round_up expires lvl
    → round_up expires lvl ≤ clk / lvl_gran lvl * lvl_gran lvl + 64 * lvl_gran lvl
    → is_due lvl (calc_index expires lvl) k ≡ false
unfolding calc_index round_up is_edge edge_bucket
not_due_before zero clk e k h hw h1 h2 h3 = ground (arith, slot-ne clk e k)
not_due_before (suc zero) clk e k h hw h1 h2 h3 =
    ground (arith, slot-ne (clk / 8) ((e + 7) / 8) (k / 8))
not_due_before (suc (suc zero)) clk e k h hw h1 h2 h3 =
    ground (arith, slot-ne (clk / 64) ((e + 63) / 64) (k / 64))
not_due_before (suc (suc (suc zero))) clk e k h hw h1 h2 h3 =
    ground (arith, slot-ne (clk / 512) ((e + 511) / 512) (k / 512))
not_due_before (suc (suc (suc (suc zero)))) clk e k h hw h1 h2 h3 =
    ground (arith, slot-ne (clk / 4096) ((e + 4095) / 4096) (k / 4096))
not_due_before (suc (suc (suc (suc (suc n))))) clk e k h hw h1 h2 h3 = absurd (omega arith)

-- The last slot that a timer of this level may take before its bucket number comes round again.
abbrev pub lap_end : ℕ → ℕ → ℕ
lap_end lvl clk = clk / lvl_gran lvl * lvl_gran lvl + 64 * lvl_gran lvl

pub round_up_bounds :
    (lvl expires : ℕ)
    → IsLevel lvl
    → expires + 4096 < u64_mod
    → (expires ≤ round_up expires lvl) × (round_up expires lvl < expires + lvl_gran lvl)
unfolding round_up
round_up_bounds zero e h hw = omega arith
round_up_bounds (suc zero) e h hw = omega arith
round_up_bounds (suc (suc zero)) e h hw = omega arith
round_up_bounds (suc (suc (suc zero))) e h hw = omega arith
round_up_bounds (suc (suc (suc (suc zero)))) e h hw = omega arith
round_up_bounds (suc (suc (suc (suc (suc n))))) e h hw = absurd (omega arith)

due_one_lap_early :
    (lvl clk expires : ℕ)
    → IsLevel lvl
    → expires + 4096 < u64_mod
    → expires < clk + 64 * lvl_gran lvl
    → lap_end lvl clk < round_up expires lvl
    → is_due lvl (calc_index expires lvl) (clk / lvl_gran lvl * lvl_gran lvl + lvl_gran lvl) ≡ true
unfolding calc_index round_up is_edge edge_bucket
due_one_lap_early zero clk e h hw h1 h2 = absurd (omega arith)
due_one_lap_early (suc zero) clk e h hw h1 h2 = ground arith
due_one_lap_early (suc (suc zero)) clk e h hw h1 h2 = ground arith
due_one_lap_early (suc (suc (suc zero))) clk e h hw h1 h2 = ground arith
due_one_lap_early (suc (suc (suc (suc zero)))) clk e h hw h1 h2 = ground arith
due_one_lap_early (suc (suc (suc (suc (suc n))))) clk e h hw h1 h2 = absurd (omega arith)

early_bounds :
    (lvl clk expires : ℕ)
    → IsLevel lvl
    → expires + 4096 < u64_mod
    → lap_end lvl clk < round_up expires lvl
    → let early = clk / lvl_gran lvl * lvl_gran lvl + lvl_gran lvl in
      (clk < early) × (early < expires)
unfolding round_up
early_bounds zero clk e h hw h1 = omega arith
early_bounds (suc zero) clk e h hw h1 = omega arith
early_bounds (suc (suc zero)) clk e h hw h1 = omega arith
early_bounds (suc (suc (suc zero))) clk e h hw h1 = omega arith
early_bounds (suc (suc (suc (suc zero)))) clk e h hw h1 = omega arith
early_bounds (suc (suc (suc (suc (suc n))))) clk e h hw h1 = absurd (omega arith)

pub level_of-IsLevel : (delta : ℕ) → IsLevel (level_of delta)
level_of-IsLevel delta = ground arith

level_of_covers : (delta : ℕ) → delta ≤ timeout_max → delta < 64 * lvl_gran (level_of delta)
level_of_covers delta h = ground arith

-- A timer added at `clk` for `delta` ticks, 1 to ULMK_TIMER_TIMEOUT_MAX, whose rounded expiry lies
-- within the lap of its level, is due at no tick before that rounded expiry, and is due there; the
-- rounded expiry is at or after `clk + delta`, by less than the granule of the level.
pub due_on_time :
    (clk delta : ℕ)
    → delta ≤ timeout_max
    → clk + delta + 4096 < u64_mod
    → round_up (clk + delta) (level_of delta) ≤ lap_end (level_of delta) clk
    → let (lvl, bucket) = calc_wheel_index (clk + delta) clk in
      let at = round_up (clk + delta) lvl in
      (clk + delta ≤ at)
      × (at < clk + delta + lvl_gran lvl)
      × (is_due lvl bucket at ≡ true)
      × ((k : ℕ) → clk < k → k < at → is_due lvl bucket k ≡ false)
due_on_time clk delta hd hw lap =
    let lvl = level_of delta in
    let ok = level_of-IsLevel delta in
    rw (calc_wheel_index_level clk delta (omega arith) hd) (
      (round_up_bounds lvl (clk + delta) ok hw).0,
      (round_up_bounds lvl (clk + delta) ok hw).1,
      due_at_round_up lvl clk (clk + delta) ok hw,
      λ k h1 h2. not_due_before lvl clk (clk + delta) k ok hw h1 h2 lap,
    )

-- Where the rounded expiry lies past the lap of the level, the bucket that calc_wheel_index chooses is
-- due one granule after the slot of `clk`: before the `clk + delta` that was asked for.
pub due_too_early :
    (clk delta : ℕ)
    → delta ≤ timeout_max
    → clk + delta + 4096 < u64_mod
    → lap_end (level_of delta) clk < round_up (clk + delta) (level_of delta)
    → let (lvl, bucket) = calc_wheel_index (clk + delta) clk in
      let early = clk / lvl_gran lvl * lvl_gran lvl + lvl_gran lvl in
      (clk < early) × (early < clk + delta) × (is_due lvl bucket early ≡ true)
due_too_early clk delta hd hw lap =
    let lvl = level_of delta in
    let ok = level_of-IsLevel delta in
    let bounds = early_bounds lvl clk (clk + delta) ok hw lap in
    rw (calc_wheel_index_level clk delta (omega arith) hd) (
      bounds.0,
      bounds.1,
      due_one_lap_early lvl clk (clk + delta) ok hw (omega (arith, level_of_covers delta hd)) lap,
    )
