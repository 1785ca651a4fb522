-- ===== src/Bits.antt =====
-- The bits of a machine word: C's `|`, `&` and `~` on an unsigned word, bit by bit.
mod Digits
pub mod Align
pub mod Bounds
pub mod Lowest
use Prim.Native.Nat.{max}
use native.Mathlib.Nat.{pow-suc, one-le-pow, pow-le-pow_right}
use ulmk_microkernel.Base.{
  ℕ, zero, suc, ◌+◌, ◌-◌, ◌*◌, ◌/◌, ◌%◌, ◌^◌, ◌≤◌, ◌<◌, min, bit_and, bit_or, ◌≡◌, refl, Bool, true,
  false, not, ◌&&◌, ◌||◌, arith, ◌==◌, ◌∙◌, ◌↔◌, ap, inl, inr, Bool-cases, ==→eq,
}
use Digits.{bit_or-digit, bit_and-digit}

-- Bit `i` of `w`.
abbrev pub bit : ℕ → ℕ → Bool
bit w zero = w % 2 == 1
bit w (suc i) = bit (w / 2) i

-- `~m` on a word of `width` bits, for `m` below `2 ^ width`.
abbrev pub complement : ℕ → ℕ → ℕ
complement width m = 2 ^ width - 1 - m

tail_or : (a b : ℕ) → bit_or a b / 2 ≡ bit_or (a / 2) (b / 2)
tail_or a b = omega (arith, bit_or-digit a b)

tail_and : (a b : ℕ) → bit_and a b / 2 ≡ bit_and (a / 2) (b / 2)
tail_and a b = omega (arith, bit_and-digit a b)

tail_pow : (j : ℕ) → 2 ^ suc j / 2 ≡ 2 ^ j
tail_pow j = omega (arith, pow-suc 2 j)

tail_complement : (w m : ℕ) → m < 2 ^ suc w → complement (suc w) m / 2 ≡ complement w (m / 2)
tail_complement w m h = omega (arith, pow-suc 2 w)

pub bit-bit_or : (a b i : ℕ) → bit (bit_or a b) i ≡ (bit a i || bit b i)
bit-bit_or a b zero = ground (arith, bit_or-digit a b)
bit-bit_or a b (suc i) = rw (tail_or a b) (bit-bit_or (a / 2) (b / 2) i)

pub bit-bit_and : (a b i : ℕ) → bit (bit_and a b) i ≡ (bit a i && bit b i)
bit-bit_and a b zero = ground (arith, bit_and-digit a b)
bit-bit_and a b (suc i) = rw (tail_and a b) (bit-bit_and (a / 2) (b / 2) i)

pub bit-zero : (i : ℕ) → bit 0 i ≡ false
bit-zero zero = refl
bit-zero (suc i) = bit-zero i

pub bit-pow : (j i : ℕ) → bit (2 ^ j) i ≡ (j == i)
bit-pow zero zero = refl
bit-pow zero (suc i) = bit-zero i ∙ ground arith
bit-pow (suc j) zero = ground (arith, pow-suc 2 j)
bit-pow (suc j) (suc i) = rw (tail_pow j) (bit-pow j i ∙ ground arith)

pub bit-complement :
    (width m i : ℕ) → m < 2 ^ width → i < width → bit (complement width m) i ≡ not (bit m i)
bit-complement zero m i hm hi = absurd (omega arith)
bit-complement (suc w) m zero hm hi = ground (arith, pow-suc 2 w)
bit-complement (suc w) m (suc i) hm hi =
    rw (tail_complement w m hm)
      (bit-complement w (m / 2) i (omega (arith, pow-suc 2 w)) (omega arith))

-- A word is zero just when it has no bit.
pub eq-zero_of_bits : (k w : ℕ) → w < 2 ^ k → ((i : ℕ) → i < k → bit w i ≡ false) → w ≡ 0
eq-zero_of_bits zero w h none_set = omega arith
eq-zero_of_bits (suc k) w h none_set =
    let half =
      eq-zero_of_bits k (w / 2) (omega (arith, pow-suc 2 k))
        (λ i hi. none_set (suc i) (omega arith)) in
    ground (arith, none_set 0, half)

lt-two-pow : (n : ℕ) → n < 2 ^ n
lt-two-pow zero = omega arith
lt-two-pow (suc n) = omega (arith, lt-two-pow n, pow-suc 2 n)

pub two-pow-lt : (width j : ℕ) → j < width → 2 ^ j < 2 ^ width
two-pow-lt width j h =
    omega (arith, pow-le-pow_right {n = 2} (omega arith) h, pow-suc 2 j, one-le-pow j 2)

only_bit : (w j i : ℕ) → bit w j ≡ false → bit (bit_and w (2 ^ j)) i ≡ false
only_bit w j i e = ground (arith, bit-bit_and w (2 ^ j) i, bit-pow j i, ==→eq j i)

pub no_bits : (w : ℕ) → ((i : ℕ) → bit w i ≡ false) → w ≡ 0
no_bits w none_set = eq-zero_of_bits w w (lt-two-pow w) (λ i hi. none_set i)

-- `w & (1 << j)` is zero just when the bit is clear.
pub bit_and-pow : (w j : ℕ) → (bit_and w (2 ^ j) == 0) ≡ not (bit w j)
bit_and-pow w j = elim (Bool-cases (bit w j)) [
  | inl e ↦
      ground (arith, bit-bit_and w (2 ^ j) j, bit-pow j j, bit-zero j, ap (λ (t : ℕ). bit t j))
  | inr e ↦ ground (arith, no_bits (bit_and w (2 ^ j)) (λ i. only_bit w j i e))
]

-- `w | (1 << j)`
pub bit-set : (w j i : ℕ) → bit (bit_or w (2 ^ j)) i ≡ (j == i || bit w i)
bit-set w j i = ground (arith, bit-bit_or w (2 ^ j) i, bit-pow j i)

-- `w & ~(1 << j)` on a word of `width` bits
pub bit-clear :
    (width w j i : ℕ)
    → j < width
    → i < width
    → bit (bit_and w (complement width (2 ^ j))) i ≡ (not (j == i) && bit w i)
bit-clear width w j i hj hi = ground (
  arith,
  bit-bit_and w (complement width (2 ^ j)) i,
  bit-complement width (2 ^ j) i (two-pow-lt width j hj) hi,
  bit-pow j i,
)

-- Two words with the same bits are equal.
pub eq_of_bits : (k x y : ℕ) → x < 2 ^ k → y < 2 ^ k → ((i : ℕ) → i < k → bit x i ≡ bit y i) → x ≡ y
eq_of_bits zero x y h g same = omega arith
eq_of_bits (suc k) x y h g same =
    let half =
      eq_of_bits k (x / 2) (y / 2) (omega (arith, pow-suc 2 k)) (omega (arith, pow-suc 2 k))
        (λ i hi. same (suc i) (omega arith)) in
    ground (arith, same 0 (omega arith), half)

subset_and : (k q p : ℕ) → p < 2 ^ k → ((i : ℕ) → bit p i ≡ true → bit q i ≡ true) → bit_and q p ≡ p
subset_and zero q p h sub =
    let p_zero : p ≡ 0 = omega arith in
    rw p_zero (no_bits (bit_and q 0) (λ i. ground (arith, bit-bit_and q 0 i, bit-zero i)))
subset_and (suc k) q p h sub =
    let half = subset_and k (q / 2) (p / 2) (omega (arith, pow-suc 2 k)) (λ i. sub (suc i)) in
    ground (arith, bit_and-digit q p, half, sub 0)

-- `(q & p) == p` just when `q` has every bit of `p`.
pub bit_and-subset : (q p : ℕ) → (bit_and q p ≡ p) ↔ ((i : ℕ) → bit p i ≡ true → bit q i ≡ true)
bit_and-subset q p = (
  λ e i h. ground (arith, bit-bit_and q p i, ap (λ (t : ℕ). bit t i) e),
  subset_and p q p (lt-two-pow p),
)
