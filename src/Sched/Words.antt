-- ===== src/Sched/Words.antt =====
-- kernel/sched/bitmap_rt.c: the words that say which of the 256 priorities have a thread. The count
-- of leading zeros is an instruction of the processor, and a parameter here.
use ulmk_microkernel.Base.{
  ℕ, zero, suc, ◌+◌, ◌-◌, ◌*◌, ◌/◌, ◌%◌, ◌^◌, ◌≤◌, ◌<◌, ◌≡◌, refl, ◌∙◌, ap, Bool, true, false, not,
  ◌&&◌, ◌||◌, List, [], ◌∷◌, arith, ◌==◌, if◌then◌else◌, get_or, set, length, get_or-set, bit_and,
  bit_or, u32_mod, Bool-cases, inl, inr, ltb, length-set,
}
use ulmk_microkernel.Bits.{bit, complement, bit-set, bit-clear, bit-zero, two-pow-lt}
use ulmk_microkernel.Bits.Bounds.{bit_or-lt, bit_and-lt, bit_of_zero}
use ulmk_microkernel.Bits.Lowest.{isolated_bit}

-- BITMAP_WORDS
abbrev pub bitmap_words : ℕ
bitmap_words = 8

-- `bitmap[prio >> 5u] |= (1u << (prio & 31u))`
unfoldable pub bitmap_set : List ℕ → ℕ → List ℕ
bitmap_set words prio =
    set words (prio / 32) (bit_or (get_or words (prio / 32) 0) (2 ^ (prio % 32)))

-- `bitmap[prio >> 5u] &= ~(1u << (prio & 31u))`
unfoldable pub bitmap_clear : List ℕ → ℕ → List ℕ
bitmap_clear words prio =
    set words (prio / 32) (bit_and (get_or words (prio / 32) 0) (complement 32 (2 ^ (prio % 32))))

module _ (clz : ℕ → ℕ) where
  -- The loop of bitmap_first_set from word `i` on.
  unfoldable pub first_set_from : List ℕ → ℕ → ℕ
  first_set_from [] i = 255
  first_set_from (w ∷ ws) i =
      let rest = first_set_from ws (i + 1) in
      if w == 0 then rest else (i * 32 + 31 - clz (bit_and w (u32_mod - w))) % 256

  unfoldable pub bitmap_first_set : List ℕ → ℕ
  unfolding first_set_from
  bitmap_first_set words = first_set_from words 0

-- The leading zeros of a 32-bit word with one bit.
abbrev pub CountsZeros : (ℕ → ℕ) → Type 0
CountsZeros clz = (j : ℕ) → j < 32 → clz (2 ^ j) ≡ 31 - j

-- The words are 32-bit words.
abbrev pub AreWords : List ℕ → Type 0
AreWords [] = Unit
AreWords (w ∷ ws) = (w < u32_mod) × AreWords ws

-- Is priority `p` marked?
abbrev pub marked : List ℕ → ℕ → Bool
marked words p = bit (get_or words (p / 32) 0) (p % 32)

-- What the loop finds from word `i` on: the lowest marked priority, or 255 with none marked.
pub data FirstSet (words : List ℕ) (i p : ℕ) : Type 0 where
  nothing : p ≡ 255 → ((q : ℕ) → marked words q ≡ false) → FirstSet words i p
  lowest :
      (q : ℕ)
      → p ≡ i * 32 + q
      → q < length words * 32
      → marked words q ≡ true
      → ((r : ℕ) → r < q → marked words r ≡ false)
      → FirstSet words i p

-- A priority below 32 is marked in the first word, any other in the rest.
marked_here : (w : ℕ) (ws : List ℕ) (q : ℕ) → q < 32 → marked (w ∷ ws) q ≡ bit w q
marked_here w ws q h =
    let z : q / 32 ≡ 0 = omega arith in let r : q % 32 ≡ q = omega arith in rw (z, r) refl

marked_later : (w : ℕ) (ws : List ℕ) (q : ℕ) → marked (w ∷ ws) (q + 32) ≡ marked ws q
marked_later w ws q =
    let z : (q + 32) / 32 ≡ suc (q / 32) = omega arith in
    let r : (q + 32) % 32 ≡ q % 32 = omega arith in rw (z, r) refl

-- Nothing below `n` is marked, when nothing is in the first word and in the rest.
unmarked :
    (w : ℕ) (ws : List ℕ) (n : ℕ)
    → ((i : ℕ) → i < 32 → i < n → bit w i ≡ false)
    → ((q : ℕ) → q + 32 < n → marked ws q ≡ false)
    → (q : ℕ) → q < n
    → marked (w ∷ ws) q ≡ false
unmarked w ws n here later q h = elim (Bool-cases (ltb q 32)) [
  | inl near ↦ marked_here w ws q (ground arith) ∙ here q (ground arith) h
  | inr far ↦
      let shift : q ≡ q - 32 + 32 = ground arith in
      ap (marked (w ∷ ws)) shift ∙ marked_later w ws (q - 32) ∙ later (q - 32) (omega arith)
]

skipped :
    (w : ℕ) (ws : List ℕ) (i p : ℕ)
    → (w == 0) ≡ true
    → FirstSet ws (i + 1) p
    → FirstSet (w ∷ ws) i p
skipped w ws i p e (nothing none_left clear) =
    nothing none_left
      (λ q. unmarked w ws (suc q) (λ j h g. bit_of_zero w j e) (λ r g. clear r) q (omega arith))
skipped w ws i p e (lowest q at inside found least) =
    lowest (q + 32) (omega arith) (omega arith) (marked_later w ws q ∙ found)
      (unmarked w ws (q + 32) (λ j h g. bit_of_zero w j e) (λ r g. least r (omega arith)))

pub first_set_from-FirstSet :
    (clz : ℕ → ℕ)
    → CountsZeros clz
    → (words : List ℕ) (i : ℕ) → AreWords words
    → (i + length words) * 32 ≤ 256
    → FirstSet words i (first_set_from clz words i)
unfolding first_set_from
first_set_from-FirstSet clz counts [] i ws h = nothing refl (λ q. bit-zero (q % 32))
first_set_from-FirstSet clz counts (w ∷ ws) i (word, words) h = elim (Bool-cases (w == 0)) [
  | inl zero_word ↦
      rw (first_set_from, zero_word)
        (skipped w ws i _ zero_word
          (first_set_from-FirstSet clz counts ws (i + 1) words (omega arith)))
  | inr some_set ↦
      let (j, l) = isolated_bit 32 w some_set word in
      let place : (i * 32 + 31 - clz (bit_and w (u32_mod - w))) % 256 ≡ i * 32 + j =
        rw (l.isolates, counts j l.inside) (omega (arith, l.inside)) in
      rw (first_set_from, some_set, place)
        (lowest j refl (omega (arith, l.inside)) (marked_here w ws j l.inside ∙ l.found)
          (unmarked w ws j (λ k g. l.least k) (λ r g. absurd (omega (arith, l.inside)))))
]

pub marked-bitmap_set :
    (words : List ℕ) (p q : ℕ)
    → p / 32 < length words
    → marked (bitmap_set words p) q ≡ (p == q || marked words q)
unfolding bitmap_set
marked-bitmap_set words p q h = ground (
  arith,
  get_or-set words (p / 32) (q / 32) (bit_or (get_or words (p / 32) 0) (2 ^ (p % 32))) 0 h,
  bit-set (get_or words (p / 32) 0) (p % 32) (q % 32),
)

pub marked-bitmap_clear :
    (words : List ℕ) (p q : ℕ)
    → p / 32 < length words
    → marked (bitmap_clear words p) q ≡ (not (p == q) && marked words q)
unfolding bitmap_clear
marked-bitmap_clear words p q h = ground (
  arith,
  get_or-set words (p / 32) (q / 32)
      (bit_and (get_or words (p / 32) 0) (complement 32 (2 ^ (p % 32)))) 0 h,
  bit-clear 32 (get_or words (p / 32) 0) (p % 32) (q % 32),
)

-- A written word keeps the array an array of words.
AreWords-set : (ws : List ℕ) (i v : ℕ) → v < u32_mod → AreWords ws → AreWords (set ws i v)
AreWords-set [] i v h a = a
AreWords-set (w ∷ ws) zero v h a = (h, a.1)
AreWords-set (w ∷ ws) (suc i) v h a = (a.0, AreWords-set ws i v h a.1)

AreWords-get : (ws : List ℕ) (i : ℕ) → AreWords ws → get_or ws i 0 < u32_mod
AreWords-get [] i a = omega arith
AreWords-get (w ∷ ws) zero a = a.0
AreWords-get (w ∷ ws) (suc i) a = AreWords-get ws i a.1

pub bitmap_set-AreWords :
    (ws : List ℕ) (p : ℕ)
    → AreWords ws
    → AreWords (bitmap_set ws p) × (length (bitmap_set ws p) ≡ length ws)
unfolding bitmap_set
bitmap_set-AreWords ws p a = (
  AreWords-set ws (p / 32) _
      (bit_or-lt 32 (get_or ws (p / 32) 0) (2 ^ (p % 32)) (AreWords-get ws (p / 32) a)
        (two-pow-lt 32 (p % 32) (omega arith)))
      a,
  length-set ws (p / 32) _,
)

pub bitmap_clear-AreWords :
    (ws : List ℕ) (p : ℕ)
    → AreWords ws
    → AreWords (bitmap_clear ws p) × (length (bitmap_clear ws p) ≡ length ws)
unfolding bitmap_clear
bitmap_clear-AreWords ws p a = (
  AreWords-set ws (p / 32) _
      (bit_and-lt 32 (get_or ws (p / 32) 0) (complement 32 (2 ^ (p % 32)))
        (AreWords-get ws (p / 32) a))
      a,
  length-set ws (p / 32) _,
)
