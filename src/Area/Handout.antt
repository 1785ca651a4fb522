-- ===== src/Area/Handout.antt =====
-- What ulmk_kern_mem_grant (kernel/mem/mem.c) makes of each request.
use ulmk_microkernel.Base.{
  ℕ, ◌+◌, ◌<◌, ◌≡◌, ◌≢◌, refl, ap, true, false, some, arith, List, [], ◌∷◌, ◌==◌, if◌then◌else◌,
  Bool-cases, ==→eq, ne→==, Option-cases, inl, inr, u32_mod, bit_and, ok, einval, eperm,
}
use ulmk_microkernel.Dlist.{mem}
use ulmk_microkernel.Bits.{bit, bit-bit_and}
use ulmk_microkernel.Area.Set.{
  Area, Areas, area_find, area_find_base, mem_grant, region_heap, region_grant,
}
use ulmk_microkernel.Area.Order.{IsOrdered, clash, covers}
use ulmk_microkernel.Area.Insert.{
  IsAreas, IsFree, Inserted, accepted, bad_range, overlap, insert_refines,
}
use ulmk_microkernel.Area.Lookup.{IsSubset, find_base_sound, find_base_complete}

ordered_member :
    (area : ℕ → Area) (lo : ℕ) (xs : List ℕ) (x : ℕ)
    → IsOrdered area lo xs
    → mem x xs ≡ true
    → (0 < (area x).size) × ((area x).base + (area x).size < u32_mod)
ordered_member area lo [] x o h = absurd (ground arith)
ordered_member area lo (y ∷ xs) x o h = elim (Bool-cases (x == y)) [
  | inl same ↦ rw (==→eq x y same) (o.1, o.2)
  | inr other ↦ ordered_member area ((area y).base + (area y).size) xs x o.3 (ground arith)
]

pub data Granted (m m' : Areas) (cur target addr perms a rc : ℕ) : Type 0 where
  granted :
      (x : ℕ)
      → mem x (m.members cur) ≡ true
      → (m.area x).base ≡ addr
      → rc ≡ ok
      → IsSubset (m'.area a).perms perms
      → IsSubset (m'.area a).perms (m.area x).perms
      → ((at : ℕ)
          → area_find m' target at
            ≡ (if covers (m.area x) at then some a else area_find m target at))
      → ((t at : ℕ) → (target == t) ≡ false → area_find m' t at ≡ area_find m t at)
      → Granted m m' cur target addr perms a rc
  overlapping :
      (x : ℕ)
      → mem x (m.members cur) ≡ true
      → (m.area x).base ≡ addr
      → rc ≡ einval
      → m' ≡ m
      → clash m.area (m.members target) (m.area x).base (m.area x).size ≡ true
      → Granted m m' cur target addr perms a rc
  not_held :
      rc ≡ eperm
      → m' ≡ m
      → ((x : ℕ) → mem x (m.members cur) ≡ true → (m.area x).base ≢ addr)
      → Granted m m' cur target addr perms a rc

Inserted-Granted :
    (m m' : Areas) (cur target addr perms kind a rc x : ℕ)
    → IsAreas m
    → mem x (m.members cur) ≡ true
    → (m.area x).base ≡ addr
    → Inserted m m' target
        (m.area x).base
        (m.area x).size
        a
        rc
        (bit_and perms (m.area x).perms)
        kind
    → Granted m m' cur target addr perms a rc
Inserted-Granted m m' cur target addr perms kind a rc x wf held at
      (accepted r f i ap_ p k view rest) =
    granted x held at r
      (λ i h. ground (arith, bit-bit_and perms (m.area x).perms i, ap (λ (w : ℕ). bit w i) p))
      (λ i h. ground (arith, bit-bit_and perms (m.area x).perms i, ap (λ (w : ℕ). bit w i) p)) view
      rest
Inserted-Granted m m' cur target addr perms kind a rc x wf held at (bad_range r s (inl empty)) =
    absurd (omega (arith, ordered_member m.area 0 (m.members cur) x (wf cur) held))
Inserted-Granted m m' cur target addr perms kind a rc x wf held at (bad_range r s (inr past)) =
    absurd (omega (arith, ordered_member m.area 0 (m.members cur) x (wf cur) held))
Inserted-Granted m m' cur target addr perms kind a rc x wf held at (overlap r s c) =
    overlapping x held at r s c

-- A thread that holds an area at the address hands out exactly that area: the target then finds the
-- new area at its addresses, with permissions that were both asked for and held, and what it found
-- before at all others; every other set finds what it found before. The grant is refused with
-- EINVAL only when an area of the target overlaps, and with EPERM only when the thread holds no
-- area at the address; then everything stays as it was. Every set is in order afterwards.
pub grant_refines :
    (m : Areas) (cur target addr perms a : ℕ)
    → IsAreas m
    → IsFree m a
    → addr ≢ 0
    → let (rc, m') = mem_grant m (some cur) addr (some target) perms (some a) in
      Granted m m' cur target addr perms a rc × IsAreas m'
unfolding mem_grant
grant_refines m cur target addr perms a wf fresh valid =
    elim (Option-cases (area_find_base m cur addr)) [
      | inl missing ↦
          rw (ne→== addr 0 valid, missing)
            (
              not_held refl refl (λ x held at. absurd (
                  ground
                    (arith, find_base_complete m.area 0 (m.members cur) addr x (wf cur) held at))),
              wf,
            )
      | inr (x, found) ↦
          let there = find_base_sound m.area (m.members cur) addr x found in
          let range = ordered_member m.area 0 (m.members cur) x (wf cur) there.0 in
          let kind = if (m.area x).kind == region_heap then region_grant else (m.area x).kind in
          let (what, order) =
            insert_refines m target (m.area x).base (m.area x).size (bit_and perms (m.area x).perms)
              kind 0 a (some x) wf fresh (omega (arith, range)) (omega (arith, range)) in
          rw (ne→== addr 0 valid, found)
            (Inserted-Granted m _ cur target addr perms kind a _ x wf there.0 there.1 what, order)
    ]
