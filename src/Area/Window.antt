-- ===== src/Area/Window.antt =====
-- ulmk_area_window (kernel/mem/area.c): the window that the memory protection unit is given for an
-- address. The unit's smallest window, ULMK_ARCH_MPU_WIN_MIN, is `2 ^ k`; ULMK_ARCH_MPU_WIN_POW2 and
-- ULMK_ARCH_MPU_WIN_MAX tell which of the functions is compiled.
use ulmk_microkernel.Base.{
  ℕ, zero, suc, ◌+◌, ◌-◌, ◌*◌, ◌%◌, ◌/◌, ◌^◌, Bool, ◌||◌, Option, none, some, ltb, leb,
  if◌then◌else◌, bit_and, u32_mod,
}
use ulmk_microkernel.Bits.{complement}
use ulmk_microkernel.Area.Set.{Area}

-- `x & ~(s - 1)` on 32 bits
abbrev pub mask_down : ℕ → ℕ → ℕ
mask_down x s = bit_and x (complement 32 (s - 1))

-- The window's base and size. Both functions return `none` for ULMK_EINVAL.
abbrev pub Window : Type 0
Window = ℕ × ℕ

abbrev pub misses : Area → ℕ → Bool
misses a addr = ltb addr a.base || leb a.size (addr - a.base)

-- Does the area not hold the window of size `s` at `b`?
abbrev pub too_big : Area → ℕ → ℕ → Bool
too_big a s b = ltb a.size s || ltb b a.base || ltb (a.size - s) (b - a.base)

-- The loop that doubles the window, with `fuel` rounds left.
unfoldable pub grow : ℕ → Area → ℕ → ℕ → ℕ → Window
grow zero a addr s b = (b, s)
grow (suc fuel) a addr s b =
    let nb = mask_down addr (2 * s) in
    let rest = grow fuel a addr (2 * s) nb in
    if leb s ((u32_mod - 1) / 2) then (if too_big a (2 * s) nb then (b, s) else rest) else (b, s)

-- With ULMK_ARCH_MPU_WIN_POW2.
unfoldable pub window_pow2 : ℕ → Area → ℕ → Option Window
window_pow2 k a addr =
    let s = 2 ^ k in
    let b = mask_down addr s in
    if misses a addr then none else (if too_big a s b then none else some (grow 32 a addr s b))

-- Without it; `max` is ULMK_ARCH_MPU_WIN_MAX, where it is defined.
unfoldable pub window_range : ℕ → Option ℕ → Area → ℕ → Option Window
window_range k max a addr =
    let g = 2 ^ k in
    let b = mask_down ((a.base + g - 1) % u32_mod) g in
    let nb = mask_down ((a.base + a.size) % u32_mod) g in
    if misses a addr
    then none
    else (if ltb addr b || leb nb addr then none else elim max [
      | none ↦ some (b, nb - b)
      | some most ↦
          if ltb most (nb - b)
          then (let b' = mask_down addr g in
              if ltb most (nb - b') then some (b', most) else some (b', nb - b'))
          else some (b, nb - b)
    ])
