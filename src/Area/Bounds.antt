-- ===== src/Area/Bounds.antt =====
-- Where the windows of ulmk_area_window lie.
use native.Mathlib.Nat.{pow-suc, pow-succ', mul_assoc, add-mul, pow-le-pow_right}
use ulmk_microkernel.Base.{
  ℕ, zero, suc, ◌+◌, ◌-◌, ◌*◌, ◌/◌, ◌^◌, ◌≤◌, ◌<◌, ◌≡◌, ◌⊎◌, inl, inr, refl, sym, ◌∙◌, ap, subst,
  true, false, not, Option, none, some, arith, leb, ◌==◌, u32_mod, Bool-cases, ==→eq,
}
use ulmk_microkernel.Bits.Align.{Aligned, align_lem, multiple-gap, multiple_below}
use ulmk_microkernel.Area.Set.{Area}
use ulmk_microkernel.Area.Window.{Window, mask_down, misses, too_big, grow, window_pow2}

-- The window holds the address and stays inside the area.
pub record Inside (a : Area) (addr : ℕ) (w : Window) : Type 0 where
  pub reaches : w.0 ≤ addr
  pub covers : addr < w.0 + w.1
  pub starts : a.base ≤ w.0
  pub ends : w.0 + w.1 ≤ a.base + a.size

-- A window of `2 ^ i` bytes for the address fits in the area.
pub record Fits (a : Area) (addr i : ℕ) : Type 0 where
  pub start : ℕ
  pub aligned : Aligned i addr start
  pub low : a.base ≤ start
  pub high : start + 2 ^ i ≤ a.base + a.size

mask_lem : (addr i : ℕ) → addr < u32_mod → i ≤ 32 → Aligned i addr (mask_down addr (2 ^ i))
mask_lem addr i h g = align_lem 32 i addr g h

mask_double :
    (addr i : ℕ) → addr < u32_mod → i < 32 → Aligned (suc i) addr (mask_down addr (2 * 2 ^ i))
mask_double addr i h g =
    subst (λ s. Aligned (suc i) addr (mask_down addr s)) (pow-succ' 2 i) (mask_lem addr (suc i) h g)

round_unique : (i addr r t : ℕ) → Aligned i addr r → Aligned i addr t → r ≡ t
round_unique i addr r t x y =
    let up = multiple_below i addr t x.quotient y (omega (arith, x.multiple, x.below)) in
    let down = multiple_below i addr r y.quotient x (omega (arith, y.multiple, y.below)) in
    omega (arith, up, down, x.multiple, y.multiple)

-- A window that fits leaves room for the half of it that holds the address.
halved_window :
    (a : Area) (addr i : ℕ) → addr < u32_mod → i < 32 → Fits a addr (suc i) → Fits a addr i
halved_window a addr i h g f =
    let r = mask_lem addr i h (omega arith) in
    let twice : f.start ≡ (f.aligned.quotient * 2) * 2 ^ i =
      f.aligned.multiple
      ∙ ap (λ (t : ℕ). f.aligned.quotient * t) (pow-succ' 2 i)
      ∙ sym (mul_assoc f.aligned.quotient 2 (2 ^ i)) in
    let low =
      multiple_below i addr _ (f.aligned.quotient * 2) r (omega (arith, twice, f.aligned.below)) in
    let top : (f.aligned.quotient * 2 + 2) * 2 ^ i ≡ f.start + 2 ^ suc i =
      omega (arith, add-mul (f.aligned.quotient * 2) 2 (2 ^ i), twice, pow-suc 2 i) in
    let gap =
      multiple-gap (2 ^ i) r.quotient (f.aligned.quotient * 2 + 2)
        (omega (arith, r.multiple, r.below, f.aligned.above, top)) in
    record {
      start = mask_down addr (2 ^ i);
      aligned = r;
      low = omega (arith, f.low, low, twice);
      high = omega (arith, gap, top, r.multiple, f.high);
    }

-- A window of the powers of two: `2 ^ level` bytes, aligned, inside the area, with the address.
pub record Placed (a : Area) (addr : ℕ) (w : Window) : Type 0 where
  pub level : ℕ
  pub size : w.1 ≡ 2 ^ level
  pub small : level ≤ 31
  pub aligned : Aligned level addr w.0
  pub inside : Inside a addr w
  pub best : (i : ℕ) → level < i → i ≤ 31 → Fits a addr i → ⊥

window_stays :
    (a : Area) (addr s b i : ℕ)
    → s ≡ 2 ^ i
    → too_big a s b ≡ false
    → Aligned i addr b
    → Inside a addr (b, s)
window_stays a addr s b i e fits al = record {
  reaches = al.below;
  covers = omega (arith, al.above, e);
  starts = ground arith;
  ends = ground arith;
}

-- From a level that does not fit up, none does.
none_larger :
    (a : Area) (addr j : ℕ)
    → addr < u32_mod
    → (Fits a addr (suc j) → ⊥)
    → (i : ℕ) → j < i
    → i ≤ 31
    → Fits a addr i
    → ⊥
none_larger a addr j h unfit zero g l f = absurd (omega arith)
none_larger a addr j h unfit (suc i) g l f = elim (Bool-cases (i == j)) [
  | inl last ↦ unfit (subst (λ t. Fits a addr (suc t)) (==→eq i j last) f)
  | inr more ↦
      none_larger a addr j h unfit i (ground arith) (omega arith)
        (halved_window a addr i h (omega arith) f)
]

too_big_lem :
    (a : Area) (addr j : ℕ)
    → addr < u32_mod
    → j < 32
    → too_big a (2 * 2 ^ j) (mask_down addr (2 * 2 ^ j)) ≡ true
    → Fits a addr (suc j)
    → ⊥
too_big_lem a addr j h g big f =
    let same = round_unique (suc j) addr _ _ (mask_double addr j h g) f.aligned in
    ground (arith, same, f.low, f.high, pow-succ' 2 j)

level_31 : (j : ℕ) → j ≤ 31 → leb (2 ^ j) ((u32_mod - 1) / 2) ≡ not (j == 31)
level_31 j h = elim (Bool-cases (j == 31)) [
  | inl top ↦ ground (arith, ap (λ (t : ℕ). 2 ^ t) (==→eq j 31 top))
  | inr less ↦
      let bound : 2 ^ j ≤ 2 ^ 30 = pow-le-pow_right (omega arith) {i = j} {j = 30} (ground arith) in
      ground (arith, bound)
]

grow_lem :
    (fuel : ℕ) (a : Area) (addr j b : ℕ)
    → addr < u32_mod
    → j ≤ 31
    → 31 < j + fuel
    → Aligned j addr b
    → Inside a addr (b, 2 ^ j)
    → Placed a addr (grow fuel a addr (2 ^ j) b)
unfolding grow
grow_lem zero a addr j b h g enough al i = absurd (omega arith)
grow_lem (suc fuel) a addr j b h g enough al i = elim (Bool-cases (j == 31)) [
  | inl top ↦ rw (level_31 j g ∙ ap not top) (record {
    level = j;
    size = refl;
    small = g;
    aligned = al;
    inside = i;
    best = λ k more most f. absurd (ground arith);
  })
  | inr less ↦ elim (Bool-cases (too_big a (2 * 2 ^ j) (mask_down addr (2 * 2 ^ j)))) [
    | inl big ↦
        rw (level_31 j g ∙ ap not less, big)
          (record {
            level = j;
            size = refl;
            small = g;
            aligned = al;
            inside = i;
            best = none_larger a addr j h (too_big_lem a addr j h (omega arith) big);
          })
    | inr fits ↦
        let al' = mask_double addr j h (omega arith) in
        rw (level_31 j g ∙ ap not less, fits)
          (subst (λ t. Placed a addr (grow fuel a addr t (mask_down addr (2 * 2 ^ j))))
            (pow-succ' 2 j)
            (grow_lem fuel a addr (suc j) _ h (ground arith) (omega arith) al' (
              window_stays a addr (2 ^ suc j) _ (suc j) refl
                (ap (λ t. too_big a t (mask_down addr (2 * 2 ^ j))) (pow-succ' 2 j) ∙ fits) al')))
  ]
]

-- What ulmk_area_window makes of an address, where windows are powers of two.
pub data Result (k : ℕ) (a : Area) (addr : ℕ) (r : Option Window) : Type 0 where
  mapped : (w : Window) → r ≡ some w → Placed a addr w → Result k a addr r
  refused : r ≡ none → (misses a addr ≡ true) ⊎ (Fits a addr k → ⊥) → Result k a addr r

-- Where windows are powers of two of at least `2 ^ k` bytes, ulmk_area_window returns, for an area
-- and an address of 32 bits, a window of `2 ^ level` bytes that is aligned to its size, holds the
-- address and stays inside the area, and no larger aligned window for the address does. It refuses
-- only an address outside the area and one whose smallest window does not fit.
pub window_pow2_refines :
    (k : ℕ) (a : Area) (addr : ℕ) → k ≤ 31 → addr < u32_mod → Result k a addr (window_pow2 k a addr)
unfolding window_pow2
window_pow2_refines k a addr g h = elim (Bool-cases (misses a addr)) [
  | inl outside ↦ rw outside (refused refl (inl outside))
  | inr within ↦ elim (Bool-cases (too_big a (2 ^ k) (mask_down addr (2 ^ k)))) [
    | inl big ↦
        rw (within, big)
          (refused refl (
            inr (λ f.
              let same = round_unique k addr _ _ (mask_lem addr k h (omega arith)) f.aligned in
              ground (arith, same, f.low, f.high))))
    | inr fits ↦
        let al = mask_lem addr k h (omega arith) in
        rw (within, fits)
          (mapped _ refl (
            grow_lem 32 a addr k _ h g (omega arith) al
              (window_stays a addr (2 ^ k) _ k refl fits al)))
  ]
]
