-- ===== src/Device/Table.antt =====
-- components/ulmk_device_manager/src/registry.c: the table of devices. The array `tab[max]` is the
-- list of its entries; it is never NULL. A path is `none` for NULL.
use mathlib.Core.Option
use ulmk_microkernel.Base.{
  ℕ, ◌+◌, ◌-◌, Bool, true, false, not, ◌||◌, Option, none, some, List, [], ◌∷◌, ◌==◌, if◌then◌else◌,
  ok, einval, enospc, esrch,
}
use ulmk_microkernel.Device.Path.{CString, put, path_ok, path_eq, path_copy}

-- `struct ulmk_dev_entry`
pub record Entry : Type 0 where
  pub path : CString
  pub ep : ℕ
  pub server : ℕ
  pub cls : ℕ
  pub instance_no : ℕ
  pub used : Bool

-- The loop of ulmk_dev_table_register from slot `i`: `none` for a path that is taken, or else the
-- first free slot, if there is one.
unfoldable pub scan_slots : List Entry → ℕ → Option ℕ → CString → Option (Option ℕ)
scan_slots [] i free path = some free
scan_slots (e ∷ es) i free path =
    let skip = scan_slots es (i + 1) free path in
    let take_slot = scan_slots es (i + 1) (some i) path in
    if e.used
    then (if path_eq e.path path then none else skip)
    else elim free [ none ↦ take_slot | some f ↦ skip ]

-- The entry that is written over the free slot.
abbrev pub filled : Entry → CString → ℕ → ℕ → ℕ → ℕ → Entry
filled e path ep server cls instance_no = record {
  path = path_copy e.path path;
  ep = ep;
  server = server;
  cls = cls;
  instance_no = instance_no;
  used = true;
}

unfoldable pub write_slot : List Entry → ℕ → CString → ℕ → ℕ → ℕ → ℕ → List Entry
write_slot [] i path ep server cls instance_no = []
write_slot (e ∷ es) i path ep server cls instance_no =
    let rest = write_slot es (i - 1) path ep server cls instance_no in
    if i == 0 then filled e path ep server cls instance_no ∷ es else e ∷ rest

unfoldable pub table_register : List Entry → Option CString → ℕ → ℕ → ℕ → ℕ → ℕ × List Entry
table_register tab none ep server cls instance_no = (einval, tab)
table_register tab (some path) ep server cls instance_no =
    if not (path_ok (some path)) || ep == 0
    then (einval, tab)
    else elim (scan_slots tab 0 none path) [
      | none ↦ (einval, tab)
      | some none ↦ (enospc, tab)
      | some (some i) ↦ (ok, write_slot tab i path ep server cls instance_no)
    ]

abbrev pub cleared : Entry → Entry
cleared e = record e { used = false; ep = 0; server = 0; path = put e.path 0 0 }

-- The loop of ulmk_dev_table_unregister; `none` when no entry matches.
unfoldable pub clear_first : List Entry → CString → Option (List Entry)
clear_first [] path = none
clear_first (e ∷ es) path =
    let rest = clear_first es path in
    if not e.used
    then Option.map (λ r. e ∷ r) rest
    else (if not (path_eq e.path path) then Option.map (λ r. e ∷ r) rest else some (cleared e ∷ es))

unfoldable pub table_unregister : List Entry → Option CString → ℕ × List Entry
table_unregister tab none = (einval, tab)
table_unregister tab (some path) =
    if not (path_ok (some path))
    then (einval, tab)
    else elim (clear_first tab path) [ none ↦ (esrch, tab) | some tab' ↦ (ok, tab') ]

-- The loop of ulmk_dev_table_lookup.
unfoldable pub find : List Entry → CString → Option Entry
find [] path = none
find (e ∷ es) path =
    let rest = find es path in
    if not e.used then rest else (if not (path_eq e.path path) then rest else some e)

-- The result, and what is written through `out`.
unfoldable pub table_lookup : List Entry → Option CString → ℕ × Option Entry
table_lookup tab none = (einval, none)
table_lookup tab (some path) =
    if not (path_ok (some path))
    then (einval, none)
    else elim (find tab path) [ none ↦ (esrch, none) | some e ↦ (ok, some e) ]
