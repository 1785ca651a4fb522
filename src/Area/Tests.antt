-- ===== src/Area/Tests.antt =====
-- Runs of the area sets, and their theorems at concrete inputs.
use ulmk_microkernel.Base.{
  ◌≡◌, ◌↔◌, refl, true, none, some, [], ◌∷◌, arith, ◌==◌, if◌then◌else◌, ok, Bool-cases, inl, inr,
}
use ulmk_microkernel.Dlist.{mem}
use ulmk_microkernel.Area.Set.{
  Area, Areas, area_insert, walk, area_find, area_find_base, area_range_ok, mem_grant, find_base_in,
}
use ulmk_microkernel.Area.Order.{covers}
use ulmk_microkernel.Area.Insert.{IsAreas, IsFree, Inserted, insert_refines}
use ulmk_microkernel.Area.Lookup.{find_iff, Allowed, range_ok_iff}
use ulmk_microkernel.Area.Grant.{IsAttenuated, IsChildless, grant-IsAttenuated}
use ulmk_microkernel.Area.Handout.{Granted, grant_refines}
use ulmk_microkernel.Area.Window.{window_pow2, grow}
use ulmk_microkernel.Area.Bounds.{Result, window_pow2_refines}

-- 8 KB at 0x1000.
abbrev heap_area : Area
heap_area = record {
  parent = none;
  child = none;
  sibling = none;
  set = some 1;
  base = 4096;
  size = 8192;
  perms = 3;
  kind = 3;
  flags = 1;
}

-- The set at 1 holds the area at 64, all others are empty.
abbrev memory : Areas
memory = record {
  area = λ _. heap_area;
  members = λ s. if s == 1 then 64 ∷ [] else [];
  count = λ s. if s == 1 then 1 else 0;
}

insert_run : (area_insert memory 1 65536 4096 3 4 0 none (some 128)).0 ≡ ok
unfolding area_insert walk
insert_run = refl

grant_run : (mem_grant memory (some 1) 4096 (some 2) 1 (some 128)).0 ≡ ok
unfolding mem_grant find_base_in area_insert walk
grant_run = refl

window_run : window_pow2 5 heap_area 5000 ≡ some (4096, 4096)
unfolding window_pow2 grow
window_run = refl

memory-IsAreas : IsAreas memory
memory-IsAreas s = elim (Bool-cases (s == 1)) [
  | inl own ↦ rw own (omega arith, omega arith, omega arith, _)
  | inr other ↦ rw other _
]

memory-IsFree : IsFree memory 128
memory-IsFree s = elim (Bool-cases (s == 1)) [ inl own ↦ rw own refl | inr other ↦ rw other refl ]

memory-IsAttenuated : IsAttenuated memory
memory-IsAttenuated s x p h e = absurd (ground arith)

memory-IsChildless : IsChildless memory 128
memory-IsChildless s x h e = ground arith

insert_refines_example :
    let (rc, m) = area_insert memory 1 65536 4096 3 4 0 none (some 128) in
    Inserted memory m 1 65536 4096 128 rc 3 4 × IsAreas m
insert_refines_example =
    insert_refines memory 1 65536 4096 3 4 0 128 none memory-IsAreas memory-IsFree (omega arith)
      (omega arith)

find_iff_example :
    ((area_find memory 1 5000 ≡ some 64)
      ↔ ((mem 64 (memory.members 1) ≡ true) × (covers (memory.area 64) 5000 ≡ true)))
    × ((area_find_base memory 1 5000 ≡ some 64)
        ↔ ((mem 64 (memory.members 1) ≡ true) × ((memory.area 64).base ≡ 5000)))
find_iff_example = find_iff memory 1 5000 64 memory-IsAreas

range_ok_iff_example : (area_range_ok memory 1 5000 16 1 ≡ true) ↔ Allowed memory 1 5000 16 1
range_ok_iff_example = range_ok_iff memory 1 5000 16 1 memory-IsAreas (omega arith)

grant-IsAttenuated_example : IsAttenuated (mem_grant memory (some 1) 4096 (some 2) 1 (some 128)).1
grant-IsAttenuated_example =
    grant-IsAttenuated memory 1 2 4096 1 128 memory-IsAttenuated memory-IsFree memory-IsChildless

grant_refines_example :
    let (rc, m) = mem_grant memory (some 1) 4096 (some 2) 1 (some 128) in
    Granted memory m 1 2 4096 1 128 rc × IsAreas m
grant_refines_example =
    grant_refines memory 1 2 4096 1 128 memory-IsAreas memory-IsFree (λ e. ground arith)

window_pow2_refines_example : Result 5 heap_area 5000 (window_pow2 5 heap_area 5000)
window_pow2_refines_example = window_pow2_refines 5 heap_area 5000 (omega arith) (omega arith)
