-- ===== src/Bits/Bounds.antt =====
-- `&` and `|` stay inside the width of their arguments, and what `x & ~y` keeps.
use native.Mathlib.Nat.{pow-suc}
use ulmk_microkernel.Base.{
  ℕ, zero, suc, ◌/◌, ◌^◌, ◌<◌, ◌≡◌, true, false, not, ◌&&◌, bit_and, bit_or, u32_mod, arith, ◌==◌,
  ==→eq,
}
use ulmk_microkernel.Bits.{bit, bit-zero, no_bits, complement, bit-bit_and, bit-complement}
use ulmk_microkernel.Bits.Digits.{bit_and-digit, bit_or-digit}

pub bit_or-lt : (k x y : ℕ) → x < 2 ^ k → y < 2 ^ k → bit_or x y < 2 ^ k
bit_or-lt zero x y h g =
    let x_zero : x ≡ 0 = omega arith in
    let y_zero : y ≡ 0 = omega arith in rw (x_zero, y_zero) (omega arith)
bit_or-lt (suc k) x y h g =
    let half =
      bit_or-lt k (x / 2) (y / 2) (omega (arith, pow-suc 2 k)) (omega (arith, pow-suc 2 k)) in
    omega (arith, half, bit_or-digit x y, pow-suc 2 k)

pub bit_and-lt : (k x y : ℕ) → x < 2 ^ k → bit_and x y < 2 ^ k
bit_and-lt zero x y h =
    let x_zero : x ≡ 0 = omega arith in
    let none_left = no_bits (bit_and 0 y) (λ i. ground (arith, bit-bit_and 0 y i, bit-zero i)) in
    rw x_zero (omega (arith, none_left))
bit_and-lt (suc k) x y h =
    let half = bit_and-lt k (x / 2) (y / 2) (omega (arith, pow-suc 2 k)) in
    omega (arith, half, bit_and-digit x y, pow-suc 2 k)

-- `x & ~(x & y)` on 32 bits keeps the bits of `x` that `y` lacks.
pub bit-consumed :
    (x y i : ℕ)
    → x < u32_mod
    → i < 32
    → bit (bit_and x (complement 32 (bit_and x y))) i ≡ (bit x i && not (bit y i))
bit-consumed x y i h hi = ground (
  arith,
  bit-bit_and x (complement 32 (bit_and x y)) i,
  bit-complement 32 (bit_and x y) i (bit_and-lt 32 x y h) hi,
  bit-bit_and x y i,
)

pub bit_of_zero : (w i : ℕ) → (w == 0) ≡ true → bit w i ≡ false
bit_of_zero w i h = rw (==→eq w 0 h) (bit-zero i)
