-- ===== src/Device/Unique.antt =====
-- Tables of which no two entries answer to one path, and the removal of a path from them.
use mathlib.Core.Option
use ulmk_microkernel.Base.{
  ℕ, ◌≡◌, ◌≢◌, refl, sym, ◌∙◌, subst, true, false, ◌&&◌, none, some, arith, ◌==◌, if◌then◌else◌,
  inl, inr, Bool-cases, Option-cases, List, [], ◌∷◌, ok, einval, esrch,
}
use ulmk_microkernel.Device.Path.{CString, path_ok, path_eq, path_copy}
use ulmk_microkernel.Device.Strings.{
  IsPath, path_ok_sound, path_eq_refl, path_eq_comm, path_eq-congr, path_eq-copy,
}
use ulmk_microkernel.Device.Table.{
  Entry, filled, write_slot, table_register, cleared, clear_first, table_unregister, find,
  table_lookup,
}
use ulmk_microkernel.Device.Registry.{
  device_at, device_at-find, is_full, first_free, is_none, zero_add, scan_lem, device_of,
  device_at-congr, device_at-write, Device,
}

-- No two entries answer to one path.
abbrev pub IsUnique : List Entry → Type 0
IsUnique [] = Unit {0}
IsUnique (e ∷ es) = (e.used ≡ true → device_at es e.path ≡ none) × IsUnique es

clear_first-none : (es : List Entry) (p : CString) → device_at es p ≡ none → clear_first es p ≡ none
unfolding clear_first
clear_first-none [] p h = refl
clear_first-none (e ∷ es) p h = ground (arith, clear_first-none es p)

clear_first-some :
    (es : List Entry) (p : CString) (d : Device)
    → device_at es p ≡ some d
    → IsUnique es
    → (es' : List Entry) × (clear_first es p ≡ some es')
      × ((q : CString) → device_at es' q ≡ (if path_eq p q then none else device_at es q))
      × IsUnique es'
unfolding clear_first
clear_first-some [] p d h u = absurd (ground arith)
clear_first-some (e ∷ es) p d h u = elim (Bool-cases (e.used && path_eq e.path p)) [
  | inl hit ↦ (
    cleared e ∷ es,
    ground arith,
    λ q. ground (arith, device_at-congr es e.path q, u.0, path_eq-congr e.path p q),
    (λ f. absurd (ground arith), u.1),
  )
  | inr miss ↦
      let (es', eq, view, u') = clear_first-some es p d (ground arith) u.1 in
      (
        e ∷ es',
        ground (arith, eq),
        λ q.
            ground (
              arith,
              view q,
              path_eq-congr p q e.path,
              path_eq_comm e.path p,
              path_eq_comm e.path q,
            ),
        (λ used. ground (arith, view e.path, u.0 used), u'),
      )
]

-- What ulmk_dev_table_unregister makes of each request.
pub data Unregistered (tab tab' : List Entry) (p : CString) (rc : ℕ) : Type 0 where
  removed :
      rc ≡ ok
      → device_at tab p ≢ none
      → ((q : CString) → device_at tab' q ≡ (if path_eq p q then none else device_at tab q))
      → Unregistered tab tab' p rc
  unknown : rc ≡ esrch → tab' ≡ tab → device_at tab p ≡ none → Unregistered tab tab' p rc
  malformed : rc ≡ einval → tab' ≡ tab → path_ok (some p) ≡ false → Unregistered tab tab' p rc

-- On a table with one entry for each path, ulmk_dev_table_unregister removes exactly the paths that
-- compare equal to the given one, reports ESRCH only for a path that is not there and EINVAL only
-- for a bad path, and then the table stays as it was.
pub unregister_refines :
    (tab : List Entry) (p : CString)
    → IsUnique tab
    → let (rc, tab') = table_unregister tab (some p) in Unregistered tab tab' p rc × IsUnique tab'
unfolding table_unregister
unregister_refines tab p u = elim (Bool-cases (path_ok (some p))) [
  | inr bad ↦ rw bad (malformed refl refl bad, u)
  | inl good ↦ elim (Option-cases (device_at tab p)) [
    | inl absent ↦ rw (good, clear_first-none tab p absent) (unknown refl refl absent, u)
    | inr (d, there) ↦
        let (tab', eq, view, u') = clear_first-some tab p d there u in
        rw (good, eq) (removed refl (λ absent. ground (arith, there)) view, u')
  ]
]

module _ (p : CString) (w : IsPath p) (ep server cls instance_no : ℕ) where
  write_used :
      (e : Entry) (es : List Entry)
      → e.used ≡ true
      → write_slot (e ∷ es) (first_free (e ∷ es)) p ep server cls instance_no
        ≡ e ∷ write_slot es (first_free es) p ep server cls instance_no
  unfolding write_slot
  write_used e es used = ground arith

  write_free :
      (e : Entry) (es : List Entry)
      → e.used ≡ false
      → write_slot (e ∷ es) (first_free (e ∷ es)) p ep server cls instance_no
        ≡ filled e p ep server cls instance_no ∷ es
  unfolding write_slot
  write_free e es free = ground arith

  write-IsUnique :
      (es : List Entry)
      → is_full es ≡ false
      → device_at es p ≡ none
      → IsUnique es
      → IsUnique (write_slot es (first_free es) p ep server cls instance_no)
  write-IsUnique [] full absent u = absurd (ground arith)
  write-IsUnique (e ∷ es) full absent u = elim (Bool-cases e.used) [
    | inr free ↦ subst IsUnique (sym (write_free e es free)) (
      (λ used.
          device_at-congr es (path_copy e.path p) p (path_eq-copy e.path p p w ∙ path_eq_refl p)
          ∙ ground arith),
      u.1,
    )
    | inl used ↦ subst IsUnique (sym (write_used e es used)) (
      (λ h. ground (
        arith,
        device_at-write p w ep server cls instance_no es e.path,
        u.0,
        path_eq_comm e.path p,
      )),
      write-IsUnique es (ground arith) (ground arith) u.1,
    )
  ]

-- Where no two entries of the table answer to one path, none do after ulmk_dev_table_register.
pub register-IsUnique :
    (tab : List Entry) (p : CString) (d : Device)
    → IsUnique tab
    → IsUnique (table_register tab (some p) d.ep d.server d.cls d.instance_no).1
unfolding table_register
register-IsUnique tab p d u = elim (Bool-cases (path_ok (some p))) [
  | inr bad ↦ rw bad u
  | inl good ↦ elim (Bool-cases (d.ep == 0)) [
    | inl zero_ep ↦ rw (good, zero_ep) u
    | inr valid ↦ elim (Option-cases (device_at tab p)) [
      | inr (old, there) ↦ rw (good, valid, scan_lem tab 0 p, there) u
      | inl absent ↦ elim (Bool-cases (is_full tab)) [
        | inl full ↦ rw (good, valid, scan_lem tab 0 p, absent, full) u
        | inr room ↦
            rw (good, valid, scan_lem tab 0 p, absent, room)
              (rw (zero_add (first_free tab)) (
                write-IsUnique p (path_ok_sound p good) d.ep d.server d.cls d.instance_no tab room
                  absent u))
      ]
    ]
  ]
]

-- For a well formed path ulmk_dev_table_lookup returns the device that the table holds under it and
-- 0, or ESRCH where it holds none.
pub lookup_refines :
    (tab : List Entry) (p : CString)
    → path_ok (some p) ≡ true
    → let (rc, out) = table_lookup tab (some p) in
      (Option.map device_of out ≡ device_at tab p) × (rc ≡ (if is_none out then esrch else ok))
unfolding table_lookup
lookup_refines tab p good = rw good (elim (Option-cases (find tab p)) [
  | inl absent ↦ rw absent (rw (sym (device_at-find tab p), absent) refl, refl)
  | inr (e, there) ↦ rw there (rw (sym (device_at-find tab p), there) refl, refl)
])
