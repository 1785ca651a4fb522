-- ===== src/Bits/Lowest.antt =====
-- `w & -w`: the lowest bit of a word, alone.
use native.Mathlib.Nat.{pow-suc}
use ulmk_microkernel.Base.{
  ℕ, zero, suc, ◌+◌, ◌-◌, ◌*◌, ◌/◌, ◌%◌, ◌^◌, ◌<◌, min, ◌≡◌, ◌∙◌, ap, true, false, arith, ◌==◌,
  bit_and, Bool-cases, inl, inr,
}
use ulmk_microkernel.Bits.{bit, complement}
use ulmk_microkernel.Bits.Digits.{bit_and-digit}

-- `j` is the place of the lowest bit of `w`.
pub record Lowest (k w j : ℕ) : Type 0 where
  pub inside : j < k
  pub isolates : bit_and w (2 ^ k - w) ≡ 2 ^ j
  pub found : bit w j ≡ true
  pub least : (i : ℕ) → i < j → bit w i ≡ false

-- `v & ~v` is zero.
disjoint : (k v : ℕ) → v < 2 ^ k → bit_and v (complement k v) ≡ 0
disjoint zero v h = let v_zero : v ≡ 0 = omega arith in rw v_zero (omega (arith, bit_and-digit 0 0))
disjoint (suc k) v h =
    let half = disjoint k (v / 2) (omega (arith, pow-suc 2 k)) in
    let m : complement (suc k) v / 2 ≡ complement k (v / 2) = omega (arith, pow-suc 2 k) in
    let digit =
      bit_and-digit v (complement (suc k) v)
      ∙ ap (λ (t : ℕ). bit_and (v / 2) t * 2 + min (v % 2) (complement (suc k) v % 2)) m in
    omega (arith, half, digit, pow-suc 2 k)

-- The lowest bit of an even word, and of an odd one.
even_bit :
    (k w j : ℕ)
    → (w % 2 == 0) ≡ true
    → w < 2 ^ suc k
    → Lowest k (w / 2) j
    → Lowest (suc k) w (suc j)
even_bit k w j even h l = record {
  inside = omega (arith, l.inside);
  isolates = isolated;
  found = l.found;
  least = lower;
}
  where
    isolated : bit_and w (2 ^ suc k - w) ≡ 2 ^ suc j
    isolated =
        let m : (2 ^ suc k - w) / 2 ≡ 2 ^ k - w / 2 = ground (arith, pow-suc 2 k) in
        let digit =
          bit_and-digit w (2 ^ suc k - w)
          ∙ ap (λ (t : ℕ). bit_and (w / 2) t * 2 + min (w % 2) ((2 ^ suc k - w) % 2)) m in
        ground (arith, l.isolates, digit, pow-suc 2 j)

    lower : (i : ℕ) → i < suc j → bit w i ≡ false
    lower zero g = ground arith
    lower (suc i) g = l.least i (omega arith)

odd_bit : (k w : ℕ) → (w % 2 == 0) ≡ false → w < 2 ^ suc k → Lowest (suc k) w 0
odd_bit k w odd h = record {
  inside = omega arith;
  isolates = isolated;
  found = ground arith;
  least = λ i g. absurd (omega arith);
}
  where
    isolated : bit_and w (2 ^ suc k - w) ≡ 1
    isolated =
        let half = disjoint k (w / 2) (omega (arith, pow-suc 2 k)) in
        let m : (2 ^ suc k - w) / 2 ≡ complement k (w / 2) = ground (arith, pow-suc 2 k) in
        let digit =
          bit_and-digit w (2 ^ suc k - w)
          ∙ ap (λ (t : ℕ). bit_and (w / 2) t * 2 + min (w % 2) ((2 ^ suc k - w) % 2)) m in
        ground (arith, half, digit, pow-suc 2 k)

-- A word that is not zero has a lowest bit.
pub isolated_bit : (k w : ℕ) → (w == 0) ≡ false → w < 2 ^ k → (j : ℕ) × Lowest k w j
isolated_bit zero w some_set h = absurd (ground arith)
isolated_bit (suc k) w some_set h = elim (Bool-cases (w % 2 == 0)) [
  | inl even ↦
      let (j, l) = isolated_bit k (w / 2) (ground arith) (omega (arith, pow-suc 2 k)) in
      (suc j, even_bit k w j even h l)
  | inr odd ↦ (0, odd_bit k w odd h)
]
