-- ===== src/Area/Set.antt =====
-- kernel/mem/area.c: the areas of a thread. The records are a store by address; the chain of `next`
-- pointers from the head of a set is the list of the addresses on it. `uintptr_t` and `size_t` are
-- 32 bits wide. The caller holds the area lock throughout.
use ulmk_microkernel.Base.{
  ℕ, ◌+◌, ◌-◌, ◌%◌, ◌^◌, Bool, true, false, not, ◌&&◌, ◌||◌, Option, none, some, List, [], ◌∷◌,
  ◌++◌, ltb, leb, ◌==◌, if◌then◌else◌, bit_and, u32_mod, ok, einval, enomem, eperm, esrch,
}

-- `struct ulmk_area` without `next`
pub record Area : Type 0 where
  pub parent : Option ℕ
  pub child : Option ℕ
  pub sibling : Option ℕ
  pub set : Option ℕ
  pub base : ℕ
  pub size : ℕ
  pub perms : ℕ
  pub kind : ℕ
  pub flags : ℕ

-- `members s` is the chain from the head of the set at `s`, `count s` its counter.
pub record Areas : Type 0 where
  pub area : ℕ → Area
  pub members : ℕ → List ℕ
  pub count : ℕ → ℕ

abbrev pub overlaps : ℕ → ℕ → ℕ → ℕ → Bool
overlaps a alen b blen = ltb a ((b + blen) % u32_mod) && ltb b ((a + alen) % u32_mod)

-- The walk of ulmk_area_insert: the chain before and after `*link`, or `none` when an area that it
-- compares overlaps the range.
unfoldable pub walk : (ℕ → Area) → List ℕ → ℕ → ℕ → Option (List ℕ × List ℕ)
walk area [] base size = some ([], [])
walk area (x ∷ xs) base size =
    let rest = walk area xs base size in
    let hit = overlaps (area x).base (area x).size base size in
    if ltb (area x).base base
    then (if hit
        then none
        else elim rest [ none ↦ none | some (before, after) ↦ some (x ∷ before, after) ])
    else (if hit then none else some ([], x ∷ xs))

abbrev pub write : (ℕ → Area) → ℕ → Area → ℕ → Area
write area a v x = if a == x then v else area x

-- The record filled, and put first among the children of its parent.
abbrev pub fill : (ℕ → Area) → ℕ → ℕ → ℕ → ℕ → ℕ → ℕ → ℕ → Option ℕ → ℕ → Area
fill area s base size perms kind flags a none = write area a (record {
  parent = none;
  child = none;
  sibling = none;
  set = some s;
  base = base;
  size = size;
  perms = perms;
  kind = kind;
  flags = flags;
})
fill area s base size perms kind flags a (some p) =
    let area' = write area a (record {
      parent = some p;
      child = none;
      sibling = (area p).child;
      set = some s;
      base = base;
      size = size;
      perms = perms;
      kind = kind;
      flags = flags;
    }) in
    write area' p (record (area' p) { child = some a })

-- ulmk_area_insert into the set at `s`. `heap` is what ulmk_heap_alloc returns, should it be called.
unfoldable pub area_insert : Areas → ℕ → ℕ → ℕ → ℕ → ℕ → ℕ → Option ℕ → Option ℕ → ℕ × Areas
area_insert m s base size perms kind flags parent heap =
    if size == 0 || ltb ((base + size) % u32_mod) base
    then (einval, m)
    else elim (walk m.area (m.members s) base size) [
      | none ↦ (einval, m)
      | some (before, after) ↦ elim heap [
        | none ↦ (enomem, m)
        | some a ↦ (
          ok,
          record {
            area = fill m.area s base size perms kind flags a parent;
            members = λ t. if s == t then before ++ a ∷ after else m.members t;
            count = λ t. if s == t then (m.count t + 1) % 2 ^ 16 else m.count t;
          },
        )
      ]
    ]

-- The loop of ulmk_area_find along the chain.
unfoldable pub find_in : (ℕ → Area) → List ℕ → ℕ → Option ℕ
find_in area [] addr = none
find_in area (x ∷ xs) addr =
    let rest = find_in area xs addr in
    if leb (area x).base addr
    then (if ltb (addr - (area x).base) (area x).size then some x else rest)
    else none

-- ulmk_area_find
abbrev pub area_find : Areas → ℕ → ℕ → Option ℕ
area_find m s addr = find_in m.area (m.members s) addr

-- The loop of ulmk_area_find_base.
unfoldable pub find_base_in : (ℕ → Area) → List ℕ → ℕ → Option ℕ
find_base_in area [] base = none
find_base_in area (x ∷ xs) base =
    let rest = find_base_in area xs base in
    if leb (area x).base base then (if (area x).base == base then some x else rest) else none

-- ulmk_area_find_base
abbrev pub area_find_base : Areas → ℕ → ℕ → Option ℕ
area_find_base m s base = find_base_in m.area (m.members s) base

-- ulmk_area_range_ok
unfoldable pub area_range_ok : Areas → ℕ → ℕ → ℕ → ℕ → Bool
area_range_ok m s addr len perms = if len == 0 then true else elim (area_find m s addr) [
  | none ↦ false
  | some x ↦
      if not (bit_and (m.area x).perms perms == perms)
      then false
      else leb len ((m.area x).size - (addr - (m.area x).base))
]

-- ULMK_REGION_HEAP and ULMK_REGION_GRANT
abbrev pub region_heap : ℕ
region_heap = 3

abbrev pub region_grant : ℕ
region_grant = 6

-- ulmk_kern_mem_grant: `cur` and `target` are the addresses of the two threads' area sets, `none`
-- where there is no such thread.
unfoldable pub mem_grant : Areas → Option ℕ → ℕ → Option ℕ → ℕ → Option ℕ → ℕ × Areas
mem_grant m none addr target perms heap = (einval, m)
mem_grant m (some cur) addr target perms heap = if addr == 0 then (einval, m) else elim target [
  | none ↦ (esrch, m)
  | some t ↦ elim (area_find_base m cur addr) [
    | none ↦ (eperm, m)
    | some a ↦
        let from = m.area a in
        let kind = if from.kind == region_heap then region_grant else from.kind in
        area_insert m t from.base from.size (bit_and perms from.perms) kind 0 (some a) heap
  ]
]
