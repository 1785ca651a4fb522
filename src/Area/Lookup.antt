-- ===== src/Area/Lookup.antt =====
-- What the lookups of kernel/mem/area.c find in a set whose areas are in order.
use ulmk_microkernel.Base.{
  ℕ, ◌+◌, ◌≤◌, ◌<◌, ◌≡◌, ◌↔◌, true, some, arith, List, [], ◌∷◌, ◌==◌, Bool-cases, ==→eq,
  Option-cases, inl, inr,
}
use ulmk_microkernel.Dlist.{mem}
use ulmk_microkernel.Bits.{bit, bit_and-subset}
use ulmk_microkernel.Area.Set.{Area, Areas, area_find, find_base_in, area_find_base, area_range_ok}
use ulmk_microkernel.Area.Order.{IsOrdered, covers, ordered_ge, find_in_sound, find_in_complete}
use ulmk_microkernel.Area.Insert.{IsAreas}

-- Every bit of the first word is one of the second.
abbrev pub IsSubset : ℕ → ℕ → Type 0
IsSubset p q = (i : ℕ) → bit p i ≡ true → bit q i ≡ true

pub find_base_sound :
    (area : ℕ → Area) (xs : List ℕ) (base x : ℕ)
    → find_base_in area xs base ≡ some x
    → (mem x xs ≡ true) × ((area x).base ≡ base)
unfolding find_base_in
find_base_sound area [] base x h = absurd (ground arith)
find_base_sound area (y ∷ xs) base x h = elim (Bool-cases ((area y).base == base)) [
  | inl here ↦ (ground arith, ground arith)
  | inr past ↦
      let (inside, holds) = find_base_sound area xs base x (ground arith) in (ground arith, holds)
]

pub find_base_complete :
    (area : ℕ → Area) (lo : ℕ) (xs : List ℕ) (base x : ℕ)
    → IsOrdered area lo xs
    → mem x xs ≡ true
    → (area x).base ≡ base
    → find_base_in area xs base ≡ some x
unfolding find_base_in
find_base_complete area lo [] base x o h e = absurd (ground arith)
find_base_complete area lo (y ∷ xs) base x o h e = elim (Bool-cases (x == y)) [
  | inl same ↦ ground (arith, ==→eq x y same)
  | inr other ↦
      let there =
        find_base_complete area ((area y).base + (area y).size) xs base x o.3 (ground arith) e in
      let later = ordered_ge area ((area y).base + (area y).size) xs x o.3 (ground arith) in
      ground (arith, there, later, o.1)
]

-- ulmk_area_find and ulmk_area_find_base on sets that are in order: the first finds an area just
-- when it is the area of the set that holds the address, the second just when it is the one that
-- starts there.
pub find_iff :
    (m : Areas) (s addr x : ℕ)
    → IsAreas m
    → ((area_find m s addr ≡ some x)
        ↔ ((mem x (m.members s) ≡ true) × (covers (m.area x) addr ≡ true)))
      × ((area_find_base m s addr ≡ some x)
          ↔ ((mem x (m.members s) ≡ true) × ((m.area x).base ≡ addr)))
find_iff m s addr x wf = (
  (
    find_in_sound m.area (m.members s) addr x,
    λ h. find_in_complete m.area 0 (m.members s) addr x (wf s) h.0 h.1,
  ),
  (
    find_base_sound m.area (m.members s) addr x,
    λ h. find_base_complete m.area 0 (m.members s) addr x (wf s) h.0 h.1,
  ),
)

-- One area of the set holds the whole range and has all the permissions.
pub record Allowed (m : Areas) (s addr len perms : ℕ) : Type 0 where
  holder : ℕ
  held : mem holder (m.members s) ≡ true
  from : (m.area holder).base ≤ addr
  upto : addr + len ≤ (m.area holder).base + (m.area holder).size
  permits : IsSubset perms (m.area holder).perms

-- ulmk_area_range_ok accepts a range that is not empty just when one area of the set holds all of it
-- and has all the permissions asked for.
pub range_ok_iff :
    (m : Areas) (s addr len perms : ℕ)
    → IsAreas m
    → 0 < len
    → (area_range_ok m s addr len perms ≡ true) ↔ Allowed m s addr len perms
unfolding area_range_ok
range_ok_iff m s addr len perms wf some_len = (
  λ h. elim (Option-cases (area_find m s addr)) [
    | inl missing ↦ absurd (ground arith)
    | inr (x, found) ↦
        let (inside, holds) = find_in_sound m.area (m.members s) addr x found in
        record {
          holder = x;
          held = inside;
          from = ground arith;
          upto = ground (arith, found);
          permits = (bit_and-subset _ perms).0 (ground (arith, found));
        }
  ],
  λ a. ground (
    arith,
    find_in_complete m.area 0 (m.members s) addr a.holder (wf s) a.held (ground arith),
    (bit_and-subset (m.area a.holder).perms perms).1 a.permits,
  ),
)
