-- ===== src/Area/Order.antt =====
-- The order of the areas of a set, and what it makes of insertion and lookup.
use ulmk_microkernel.Base.{
  ℕ, ◌+◌, ◌≤◌, ◌<◌, ◌≡◌, refl, Bool, true, false, ◌&&◌, ◌||◌, Option, none, some, arith, List, [],
  ◌∷◌, ltb, leb, ◌==◌, Bool-cases, ==→eq, Option-cases, inl, inr, u32_mod,
}
use ulmk_microkernel.Dlist.{mem}
use ulmk_microkernel.Area.Set.{Area, overlaps, walk, find_in}

-- The chain is in order from `lo` on: each area is not empty, ends inside the address space, and
-- ends where the next one may start.
abbrev pub IsOrdered : (ℕ → Area) → ℕ → List ℕ → Type 0
IsOrdered area lo [] = Unit {0}
IsOrdered area lo (x ∷ xs) =
    (lo ≤ (area x).base)
    × (0 < (area x).size)
    × ((area x).base + (area x).size < u32_mod)
    × IsOrdered area ((area x).base + (area x).size) xs

-- Does the area hold the address?
abbrev pub covers : Area → ℕ → Bool
covers x addr = leb x.base addr && ltb addr (x.base + x.size)

-- Does an area of the chain share an address with the range?
abbrev pub clash : (ℕ → Area) → List ℕ → ℕ → ℕ → Bool
clash area [] base size = false
clash area (x ∷ xs) base size =
    (ltb (area x).base (base + size) && ltb base ((area x).base + (area x).size))
    || clash area xs base size

pub overlaps_lem :
    (a alen b blen : ℕ)
    → a + alen < u32_mod
    → b + blen < u32_mod
    → overlaps a alen b blen ≡ (ltb a (b + blen) && ltb b (a + alen))
overlaps_lem a alen b blen h g = ground arith

no_clash_after :
    (area : ℕ → Area) (lo : ℕ) (xs : List ℕ) (base size : ℕ)
    → IsOrdered area lo xs
    → base + size ≤ lo
    → clash area xs base size ≡ false
no_clash_after area lo [] base size o h = refl
no_clash_after area lo (x ∷ xs) base size o h = ground (
  arith,
  no_clash_after area ((area x).base + (area x).size) xs base size o.3 (omega (arith, o.0)),
  o.0,
)

abbrev pub is_none {ℓ} : {A : Type ℓ} → Option A → Bool
is_none none = true
is_none (some a) = false

module _ (area : ℕ → Area) (base size : ℕ) (inside : base + size < u32_mod) where
  -- The walk compares few areas and misses no overlap.
  pub walk-clash :
      (lo : ℕ) (xs : List ℕ)
      → IsOrdered area lo xs
      → is_none (walk area xs base size) ≡ clash area xs base size
  unfolding walk
  walk-clash lo [] o = refl
  walk-clash lo (x ∷ xs) o =
      let hit = overlaps_lem (area x).base (area x).size base size o.2 inside in
      elim (Bool-cases (ltb (area x).base base)) [
        | inl before ↦
            let rest = walk-clash ((area x).base + (area x).size) xs o.3 in
            elim (Option-cases (walk area xs base size)) [
              | inl none_left ↦ ground (arith, hit, rest)
              | inr (split, found) ↦ ground (arith, hit, rest)
            ]
        | inr after ↦ elim (Bool-cases (overlaps (area x).base (area x).size base size)) [
          | inl clashes ↦ ground (arith, hit)
          | inr apart ↦ ground (
            arith,
            hit,
            no_clash_after area ((area x).base + (area x).size) xs base size o.3
                (ground (arith, hit, o.1)),
            o.1,
          )
        ]
      ]

-- What is on an ordered chain starts after `lo`.
pub ordered_ge :
    (area : ℕ → Area) (lo : ℕ) (xs : List ℕ) (x : ℕ)
    → IsOrdered area lo xs
    → mem x xs ≡ true
    → lo ≤ (area x).base
ordered_ge area lo [] x o h = absurd (ground arith)
ordered_ge area lo (y ∷ xs) x o h = elim (Bool-cases (x == y)) [
  | inl same ↦ rw (==→eq x y same) o.0
  | inr other ↦
      let later = ordered_ge area ((area y).base + (area y).size) xs x o.3 (ground arith) in
      omega (arith, later, o.0)
]

-- An empty range lies before what follows.
pub find_in_before :
    (area : ℕ → Area) (lo : ℕ) (xs : List ℕ) (addr : ℕ)
    → IsOrdered area lo xs
    → addr < lo
    → find_in area xs addr ≡ none
unfolding find_in
find_in_before area lo [] addr o h = refl
find_in_before area lo (x ∷ xs) addr o h = ground (arith, o.0)

-- ulmk_area_find returns an area of the set that holds the address.
pub find_in_sound :
    (area : ℕ → Area) (xs : List ℕ) (addr x : ℕ)
    → find_in area xs addr ≡ some x
    → (mem x xs ≡ true) × (covers (area x) addr ≡ true)
unfolding find_in
find_in_sound area [] addr x h = absurd (ground arith)
find_in_sound area (y ∷ xs) addr x h = elim (Bool-cases (covers (area y) addr)) [
  | inl here ↦ (ground arith, ground arith)
  | inr past ↦
      let (inside, holds) = find_in_sound area xs addr x (ground arith) in (ground arith, holds)
]

-- And it finds the one there is.
pub find_in_complete :
    (area : ℕ → Area) (lo : ℕ) (xs : List ℕ) (addr x : ℕ)
    → IsOrdered area lo xs
    → mem x xs ≡ true
    → covers (area x) addr ≡ true
    → find_in area xs addr ≡ some x
unfolding find_in
find_in_complete area lo [] addr x o h c = absurd (ground arith)
find_in_complete area lo (y ∷ xs) addr x o h c = elim (Bool-cases (x == y)) [
  | inl same ↦ ground (arith, ==→eq x y same)
  | inr other ↦
      let there =
        find_in_complete area ((area y).base + (area y).size) xs addr x o.3 (ground arith) c in
      let later = ordered_ge area ((area y).base + (area y).size) xs x o.3 (ground arith) in
      ground (arith, there, later, o.1)
]
