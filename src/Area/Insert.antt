-- ===== src/Area/Insert.antt =====
-- What ulmk_area_insert makes of a set.
use ulmk_microkernel.Base.{
  ℕ, ◌+◌, ◌%◌, ◌≤◌, ◌<◌, ◌≡◌, ◌⊎◌, refl, sym, ◌∙◌, ap, subst, true, false, ◌&&◌, ◌||◌, Option, none,
  some, arith, List, [], ◌∷◌, ◌++◌, ltb, leb, ◌==◌, if◌then◌else◌, Bool-cases, ==→eq, eq→==,
  Option-cases, inl, inr, u32_mod, ok, einval,
}
use ulmk_microkernel.Dlist.{mem}
use ulmk_microkernel.Area.Set.{Area, Areas, walk, fill, area_insert, find_in, area_find}
use ulmk_microkernel.Area.Order.{IsOrdered, clash, overlaps_lem, walk-clash, is_none}

-- The chain with an address put where the walk stopped.
abbrev spliced : Option (List ℕ × List ℕ) → ℕ → List ℕ
spliced none a = []
spliced (some (before, after)) a = before ++ a ∷ after

-- The records of the second store have the ranges of the first, but for the one at `a`.
record Refilled (area area' : ℕ → Area) (a base size : ℕ) : Type 0 where
  same_base : (x : ℕ) → (a == x) ≡ false → (area' x).base ≡ (area x).base
  same_size : (x : ℕ) → (a == x) ≡ false → (area' x).size ≡ (area x).size
  own_base : (area' a).base ≡ base
  own_size : (area' a).size ≡ size

fill-Refilled :
    (area : ℕ → Area) (s base size perms kind flags a : ℕ) (parent : Option ℕ)
    → Refilled area (fill area s base size perms kind flags a parent) a base size
fill-Refilled area s base size perms kind flags a none = record {
  same_base = λ x h. ground arith;
  same_size = λ x h. ground arith;
  own_base = ground arith;
  own_size = ground arith;
}
fill-Refilled area s base size perms kind flags a (some p) = record {
  same_base = λ x h. ground arith;
  same_size = λ x h. ground arith;
  own_base = ground arith;
  own_size = ground arith;
}

module _ (area area' : ℕ → Area) (a base size : ℕ) (r : Refilled area area' a base size) where
  refilled-IsOrdered :
      (lo : ℕ) (xs : List ℕ) → mem a xs ≡ false → IsOrdered area lo xs → IsOrdered area' lo xs
  refilled-IsOrdered lo [] h o = _
  refilled-IsOrdered lo (x ∷ xs) h o =
      rw (r.same_base x (ground arith), r.same_size x (ground arith))
        (o.0, o.1, o.2, refilled-IsOrdered ((area x).base + (area x).size) xs (ground arith) o.3)

  refilled-find :
      (xs : List ℕ) (addr : ℕ) → mem a xs ≡ false → find_in area' xs addr ≡ find_in area xs addr
  unfolding find_in
  refilled-find [] addr h = refl
  refilled-find (x ∷ xs) addr h =
      rw
        (
          r.same_base x (ground arith),
          r.same_size x (ground arith),
          refilled-find xs addr (ground arith),
        )
        refl

  module _ (filled : 0 < size) (inside : base + size < u32_mod) where
    spliced_before :
        (lo x : ℕ) (xs : List ℕ)
        → IsOrdered area lo (x ∷ xs)
        → clash area (x ∷ xs) base size ≡ false
        → (area x).base < base
        → spliced (walk area (x ∷ xs) base size) a ≡ x ∷ spliced (walk area xs base size) a
    unfolding walk
    spliced_before lo x xs o apart before =
        let hit = overlaps_lem (area x).base (area x).size base size o.2 inside in
        let rest = walk-clash area base size inside ((area x).base + (area x).size) xs o.3 in
        elim (Option-cases (walk area xs base size)) [
          | inl stopped ↦ absurd (ground arith)
          | inr (split, found) ↦ rw found (ground (arith, hit))
        ]

    spliced_after :
        (lo x : ℕ) (xs : List ℕ)
        → IsOrdered area lo (x ∷ xs)
        → clash area (x ∷ xs) base size ≡ false
        → base ≤ (area x).base
        → spliced (walk area (x ∷ xs) base size) a ≡ a ∷ x ∷ xs
    unfolding walk
    spliced_after lo x xs o apart after =
        let hit = overlaps_lem (area x).base (area x).size base size o.2 inside in
        ground (arith, hit)

    spliced-IsOrdered :
        (lo : ℕ) (xs : List ℕ)
        → mem a xs ≡ false
        → IsOrdered area lo xs
        → lo ≤ base
        → clash area xs base size ≡ false
        → IsOrdered area' lo (spliced (walk area xs base size) a)
    unfolding walk
    spliced-IsOrdered lo [] h o low apart = rw (r.own_base, r.own_size) (low, filled, inside, _)
    spliced-IsOrdered lo (x ∷ xs) h o low apart = elim (Bool-cases (ltb (area x).base base)) [
      | inl before ↦
          subst (IsOrdered area' lo) (sym (spliced_before lo x xs o apart (ground arith))) (
            rw (r.same_base x (ground arith), r.same_size x (ground arith))
              (
                o.0,
                o.1,
                o.2,
                spliced-IsOrdered ((area x).base + (area x).size) xs (ground arith) o.3
                    (ground (arith, o.1)) (ground arith),
              ))
      | inr after ↦
          subst (IsOrdered area' lo) (sym (spliced_after lo x xs o apart (ground arith))) (
            rw (r.own_base, r.own_size)
              (
                low,
                filled,
                inside,
                refilled-IsOrdered (base + size) (x ∷ xs) h (ground (arith, o.1), o.1, o.2, o.3),
              ))
    ]

    spliced-find :
        (lo : ℕ) (xs : List ℕ) (addr : ℕ)
        → mem a xs ≡ false
        → IsOrdered area lo xs
        → clash area xs base size ≡ false
        → find_in area' (spliced (walk area xs base size) a) addr
          ≡ (if leb base addr && ltb addr (base + size) then some a else find_in area xs addr)
    unfolding walk find_in
    spliced-find lo [] addr h o apart = ground (arith, r.own_base, r.own_size)
    spliced-find lo (x ∷ xs) addr h o apart = elim (Bool-cases (ltb (area x).base base)) [
      | inl before ↦
          rw
            (
              spliced_before lo x xs o apart (ground arith),
              r.same_base x (ground arith),
              r.same_size x (ground arith),
              spliced-find ((area x).base + (area x).size) xs addr (ground arith) o.3
                  (ground arith),
            )
            (ground (arith, o.1))
      | inr after ↦
          rw
            (
              spliced_after lo x xs o apart (ground arith),
              r.own_base,
              r.own_size,
              r.same_base x (ground arith),
              r.same_size x (ground arith),
              refilled-find xs addr (ground arith),
            )
            (ground (arith, o.1))
    ]

-- Every set is in order.
abbrev pub IsAreas : Areas → Type 0
IsAreas m = (s : ℕ) → IsOrdered m.area 0 (m.members s)

-- The record is on no chain.
abbrev pub IsFree : Areas → ℕ → Type 0
IsFree m a = (s : ℕ) → mem a (m.members s) ≡ false

-- What ulmk_area_insert makes of each request, `a` being the record it allocates.
pub data Inserted (m m' : Areas) (s base size a rc : ℕ) (perms kind : ℕ) : Type 0 where
  accepted :
      rc ≡ ok
      → 0 < size
      → base + size < u32_mod
      → clash m.area (m.members s) base size ≡ false
      → (m'.area a).perms ≡ perms
      → (m'.area a).kind ≡ kind
      → ((addr : ℕ)
          → area_find m' s addr
            ≡ (if leb base addr && ltb addr (base + size) then some a else area_find m s addr))
      → ((t addr : ℕ) → (s == t) ≡ false → area_find m' t addr ≡ area_find m t addr)
      → Inserted m m' s base size a rc perms kind
  bad_range :
      rc ≡ einval
      → m' ≡ m
      → (size ≡ 0) ⊎ (u32_mod ≤ base + size)
      → Inserted m m' s base size a rc perms kind
  overlap :
      rc ≡ einval
      → m' ≡ m
      → clash m.area (m.members s) base size ≡ true
      → Inserted m m' s base size a rc perms kind

fill_own :
    (area : ℕ → Area) (s base size perms kind flags a : ℕ) (parent : Option ℕ)
    → let x = fill area s base size perms kind flags a parent a in
      (x.perms ≡ perms) × (x.kind ≡ kind)
fill_own area s base size perms kind flags a none = (ground arith, ground arith)
fill_own area s base size perms kind flags a (some p) = (ground arith, ground arith)

range_refused :
    (base size : ℕ)
    → (size == 0 || ltb ((base + size) % u32_mod) base) ≡ true
    → base < u32_mod
    → size < u32_mod
    → (size ≡ 0) ⊎ (u32_mod ≤ base + size)
range_refused base size bad h g = elim (Bool-cases (size == 0)) [
  | inl empty ↦ inl (==→eq size 0 empty)
  | inr full ↦ inr (ground arith)
]

range_taken :
    (base size : ℕ)
    → (size == 0 || ltb ((base + size) % u32_mod) base) ≡ false
    → base < u32_mod
    → size < u32_mod
    → (0 < size) × (base + size < u32_mod)
range_taken base size good h g = (ground arith, ground arith)

-- On sets that are in order and with a record `a` that is on none, ulmk_area_insert takes exactly
-- the ranges that are not empty, end inside the address space and share no address with an area of
-- the set, though it compares only the areas up to the place. Then ulmk_area_find finds the new
-- area at its addresses and what it found before at all others and in all other sets, and every
-- set is in order again. A refused range leaves everything as it was.
pub insert_refines :
    (m : Areas) (s base size perms kind flags a : ℕ) (parent : Option ℕ)
    → IsAreas m
    → IsFree m a
    → base < u32_mod
    → size < u32_mod
    → let (rc, m') = area_insert m s base size perms kind flags parent (some a) in
      Inserted m m' s base size a rc perms kind × IsAreas m'
unfolding area_insert
insert_refines m s base size perms kind flags a parent wf fresh word size_word =
    elim (Bool-cases (size == 0 || ltb ((base + size) % u32_mod) base)) [
      | inl bad ↦ rw bad (bad_range refl refl (range_refused base size bad word size_word), wf)
      | inr good ↦
          let (filled, inside) = range_taken base size good word size_word in
          elim (Option-cases (walk m.area (m.members s) base size)) [
            | inl stopped ↦
                rw (good, stopped)
                  (
                    overlap refl refl (
                        sym (walk-clash m.area base size inside 0 (m.members s) (wf s))
                        ∙ ground arith),
                    wf,
                  )
            | inr (split, found) ↦
                let apart =
                  sym (walk-clash m.area base size inside 0 (m.members s) (wf s))
                  ∙ ap is_none found in
                let r = fill-Refilled m.area s base size perms kind flags a parent in
                let area' = fill m.area s base size perms kind flags a parent in
                let own = fill_own m.area s base size perms kind flags a parent in
                rw (good, found)
                  (
                    accepted refl filled inside apart own.0 own.1
                        (λ addr. rw (eq→== s s refl) (
                          ap (λ o. find_in area' (spliced o a) addr) (sym found)
                          ∙ spliced-find m.area area' a base size r filled inside 0 (m.members s)
                              addr (fresh s) (wf s) apart))
                        (λ t addr other.
                          rw other (
                            refilled-find m.area area' a base size r (m.members t) addr (fresh t))),
                    (λ t. elim (Bool-cases (s == t)) [
                      | inl same ↦ rw same (
                          subst (λ o. IsOrdered area' 0 (spliced o a)) found
                            (spliced-IsOrdered m.area area' a base size r filled inside 0
                              (m.members s) (fresh s) (wf s) (omega arith) apart))
                      | inr other ↦ rw other (
                          refilled-IsOrdered m.area area' a base size r 0 (m.members t) (fresh t)
                            (wf t))
                    ]),
                  )
          ]
    ]
