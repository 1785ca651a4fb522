-- ===== src/Timer/Index.antt =====
-- kernel/time/timer_wheel.c: which bucket a timer goes to (calc_index, calc_wheel_index), and the
-- test by which ulmk_timer_run and wheel_advance_collect pick the buckets to expire.
-- A uint64_t is a number below 2 ^ 64, its wrap written out. Every granule is a power of two g, so
-- `x & (g - 1)` is `x % g` and `x & ~(g - 1)` is `x / g * g`.
use ulmk_microkernel.Base.{
  ℕ, zero, suc, ◌+◌, ◌-◌, ◌*◌, ◌/◌, ◌%◌, ◌^◌, Bool, ◌||◌, ltb, leb, ◌==◌, if◌then◌else◌,
}

abbrev pub lvl_size : ℕ
lvl_size = 64

abbrev pub lvl_depth : ℕ
lvl_depth = 5

abbrev pub u64_mod : ℕ
u64_mod = 2 ^ 64

-- ULMK_TIMER_LVL_SHIFT and ULMK_TIMER_LVL_GRAN
abbrev pub lvl_shift : ℕ → ℕ
lvl_shift lvl = lvl * 3

abbrev pub lvl_gran : ℕ → ℕ
lvl_gran lvl = 2 ^ lvl_shift lvl

-- ULMK_TIMER_TIMEOUT_MAX
abbrev pub timeout_max : ℕ
timeout_max = 63 * 2 ^ 12

unfoldable pub round_up : ℕ → ℕ → ℕ
round_up expires lvl = (expires + lvl_gran lvl - 1) % u64_mod / lvl_gran lvl * lvl_gran lvl

unfoldable pub calc_index : ℕ → ℕ → ℕ
calc_index expires lvl = round_up expires lvl / lvl_gran lvl % lvl_size

-- The `for (lvl = ...)` loop of calc_wheel_index with `n` rounds left; the level and the bucket.
unfoldable pub level_loop : ℕ → ℕ → ℕ → ℕ → ℕ × ℕ
level_loop zero lvl expires delta = (lvl_depth - 1, calc_index expires (lvl_depth - 1))
level_loop (suc n) lvl expires delta =
    let rest = level_loop n (lvl + 1) expires delta in
    if ltb delta (lvl_size * lvl_gran lvl) then (lvl, calc_index expires lvl) else rest

unfoldable pub calc_wheel_index : ℕ → ℕ → ℕ × ℕ
calc_wheel_index expires clk =
    let delta = (expires + u64_mod - clk) % u64_mod in
    if leb (2 ^ 63) delta then (0, clk % lvl_size) else level_loop lvl_depth 0 expires delta

-- The guards of the expiry loop: is this bucket of this level the one to expire at `clk`?
unfoldable pub is_edge : ℕ → ℕ → Bool
is_edge lvl clk = lvl == 0 || clk % lvl_gran lvl == 0

unfoldable pub edge_bucket : ℕ → ℕ → ℕ
edge_bucket lvl clk = clk / lvl_gran lvl % lvl_size
