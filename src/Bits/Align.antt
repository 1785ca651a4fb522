-- ===== src/Bits/Align.antt =====
-- `addr & ~(2 ^ k - 1)`: an address rounded down to a multiple of `2 ^ k`.
use native.Mathlib.Nat.{
  pow-suc, one-le-pow, pow-le-pow_right, mul_assoc, mul-le-mul_right, lt_of_mul-lt-mul_right,
  suc-mul,
}
use ulmk_microkernel.Base.{
  ℕ, zero, suc, ◌+◌, ◌-◌, ◌*◌, ◌/◌, ◌%◌, ◌^◌, ◌≤◌, ◌<◌, min, bit_and, ◌≡◌, refl, ◌∙◌, ap, subst,
  sym, arith, Bool-cases, ltb, inl, inr,
}
use ulmk_microkernel.Bits.{complement}
use ulmk_microkernel.Bits.Digits.{bit_and-digit}

-- `r` is `addr` rounded down to a multiple of `2 ^ k`.
pub record Aligned (k addr r : ℕ) : Type 0 where
  pub quotient : ℕ
  pub multiple : r ≡ quotient * 2 ^ k
  pub below : r ≤ addr
  pub above : addr < r + 2 ^ k

and_ones : (width x : ℕ) → x < 2 ^ width → bit_and x (2 ^ width - 1) ≡ x
and_ones zero x h = let none_left : x ≡ 0 = omega arith in rw none_left refl
and_ones (suc w) x h =
    let half = and_ones w (x / 2) (omega (arith, pow-suc 2 w)) in
    let m : (2 ^ suc w - 1) / 2 ≡ 2 ^ w - 1 = omega (arith, pow-suc 2 w, one-le-pow w 2) in
    let digit =
      bit_and-digit x (2 ^ suc w - 1)
      ∙ ap (λ (t : ℕ). bit_and (x / 2) t * 2 + min (x % 2) ((2 ^ suc w - 1) % 2)) m in
    omega (arith, half, digit, pow-suc 2 w, one-le-pow w 2)

double_multiple : (q k r : ℕ) → r ≡ q * 2 ^ k → r * 2 ≡ q * 2 ^ suc k
double_multiple q k r h = rw (h, pow-suc 2 k) (mul_assoc q (2 ^ k) 2)

pub align_lem :
    (width k addr : ℕ)
    → k ≤ width
    → addr < 2 ^ width
    → Aligned k addr (bit_and addr (complement width (2 ^ k - 1)))
align_lem width zero addr hk h =
    let zero_off : complement width (2 ^ 0 - 1) ≡ 2 ^ width - 1 = omega arith in
    subst (Aligned 0 addr) (sym (ap (bit_and addr) zero_off ∙ and_ones width addr h))
      (record { quotient = addr; multiple = omega arith; below = omega arith; above = omega arith })
align_lem zero (suc k) addr hk h = absurd (omega arith)
align_lem (suc w) (suc k) addr hk h =
    let fits : 2 ^ k ≤ 2 ^ w = pow-le-pow_right (omega arith) (omega arith) in
    let half = align_lem w k (addr / 2) (omega arith) (omega (arith, pow-suc 2 w)) in
    let m : complement (suc w) (2 ^ suc k - 1) / 2 ≡ complement w (2 ^ k - 1) =
      omega (arith, pow-suc 2 w, pow-suc 2 k, fits) in
    let digit =
      bit_and-digit addr (complement (suc w) (2 ^ suc k - 1))
      ∙ ap
          (λ (t : ℕ).
            bit_and (addr / 2) t * 2 + min (addr % 2) (complement (suc w) (2 ^ suc k - 1) % 2))
          m in
    let twice : bit_and addr (complement (suc w) (2 ^ suc k - 1))
        ≡ bit_and (addr / 2) (complement w (2 ^ k - 1)) * 2 =
      omega (arith, digit, pow-suc 2 w, pow-suc 2 k, fits, one-le-pow w 2, one-le-pow k 2) in
    record {
      quotient = half.quotient;
      multiple = twice ∙ double_multiple half.quotient k _ half.multiple;
      below = omega (arith, twice, half.below);
      above = omega (arith, twice, half.above, pow-suc 2 k);
    }

-- Of two multiples of `p`, the lower is at least `p` lower.
pub multiple-gap : (p q r : ℕ) → q * p < r * p → q * p + p ≤ r * p
multiple-gap p q r h =
    let step = mul-le-mul_right p (lt_of_mul-lt-mul_right p h) in omega (arith, step, suc-mul q p)

-- No multiple of `2 ^ k` lies between an address and the address rounded down.
pub multiple_below : (k addr r q : ℕ) → Aligned k addr r → q * 2 ^ k ≤ addr → q * 2 ^ k ≤ r
multiple_below k addr r q a h = elim (Bool-cases (ltb r (q * 2 ^ k))) [
  | inr fine ↦ ground arith
  | inl beyond ↦ absurd (
      omega (
        arith,
        a.above,
        a.multiple,
        multiple-gap (2 ^ k) a.quotient q (ground (arith, a.multiple)),
      ))
]
