-- ===== src/Device/Registry.antt =====
-- The table of devices as a finite map from paths to endpoints.
use mathlib.Core.Option
use ulmk_microkernel.Base.{
  ℕ, suc, ◌+◌, ◌≡◌, ◌≢◌, ◌⊎◌, refl, Bool, true, false, ◌&&◌, none, some, arith, ◌==◌, if◌then◌else◌,
  inl, inr, Bool-cases, Option-cases, ==→eq, List, [], ◌∷◌, ok, einval, enospc,
}
use ulmk_microkernel.Base.{Option}
use ulmk_microkernel.Device.Path.{CString, path_ok, path_eq}
use ulmk_microkernel.Device.Strings.{
  IsPath, path_ok_sound, path_eq_comm, path_eq-congr, path_eq-copy,
}
use ulmk_microkernel.Device.Table.{Entry, scan_slots, write_slot, table_register, find}

-- What a client learns of an entry.
pub record Device : Type 0 where
  pub ep : ℕ
  pub server : ℕ
  pub cls : ℕ
  pub instance_no : ℕ

abbrev pub device_of : Entry → Device
device_of e = record { ep = e.ep; server = e.server; cls = e.cls; instance_no = e.instance_no }

-- The table as a map.
abbrev pub device_at : List Entry → CString → Option Device
device_at [] q = none
device_at (e ∷ es) q =
    let rest = device_at es q in if e.used && path_eq e.path q then some (device_of e) else rest

pub device_at-find :
    (es : List Entry) (q : CString) → Option.map device_of (find es q) ≡ device_at es q
unfolding find
device_at-find [] q = refl
device_at-find (e ∷ es) q = ground (arith, device_at-find es q)

abbrev pub is_full : List Entry → Bool
is_full [] = true
is_full (e ∷ es) = e.used && is_full es

-- The first free slot, counted from 0.
abbrev pub first_free : List Entry → ℕ
first_free [] = 0
first_free (e ∷ es) = if e.used then suc (first_free es) else 0

abbrev pub is_none {ℓ} : {A : Type ℓ} → Option A → Bool
is_none none = true
is_none (some a) = false

pub zero_add : (n : ℕ) → 0 + n ≡ n
zero_add n = omega arith

scan_found :
    (es : List Entry) (i f : ℕ) (p : CString)
    → scan_slots es i (some f) p ≡ (if is_none (device_at es p) then some (some f) else none)
unfolding scan_slots
scan_found [] i f p = refl
scan_found (e ∷ es) i f p = ground (arith, scan_found es (i + 1) f p)

pub scan_lem :
    (es : List Entry) (i : ℕ) (p : CString)
    → scan_slots es i none p ≡ (
        if is_none (device_at es p)
        then some (if is_full es then none else some (i + first_free es))
        else none)
unfolding scan_slots
scan_lem [] i p = refl
scan_lem (e ∷ es) i p = ground (arith, scan_found es (i + 1) i p, scan_lem es (i + 1) p)

pub device_at-congr :
    (es : List Entry) (p q : CString) → path_eq p q ≡ true → device_at es p ≡ device_at es q
device_at-congr [] p q h = refl
device_at-congr (e ∷ es) p q h = ground (
  arith,
  device_at-congr es p q h,
  path_eq-congr p q e.path h,
  path_eq_comm e.path p,
  path_eq_comm e.path q,
)

module _ (p : CString) (w : IsPath p) (ep server cls instance_no : ℕ) where
  -- The map after the first free slot has been filled.
  pub device_at-write :
      (es : List Entry) (q : CString)
      → is_full es ≡ false
      → device_at es p ≡ none
      → device_at (write_slot es (first_free es) p ep server cls instance_no) q ≡ (
          if path_eq p q
          then some (record { ep = ep; server = server; cls = cls; instance_no = instance_no })
          else device_at es q)
  unfolding write_slot
  device_at-write [] q full absent = absurd (ground arith)
  device_at-write (e ∷ es) q full absent = elim (Bool-cases e.used) [
    | inr free ↦ ground (arith, path_eq-copy e.path p q w)
    | inl used ↦ ground (
      arith,
      device_at-write es q,
      path_eq-congr p q e.path,
      path_eq_comm e.path p,
      path_eq_comm e.path q,
    )
  ]

-- What ulmk_dev_table_register makes of each request.
pub data Registered (tab tab' : List Entry) (p : CString) (d : Device) (rc : ℕ) : Type 0 where
  accepted :
      rc ≡ ok
      → IsPath p
      → d.ep ≢ 0
      → device_at tab p ≡ none
      → is_full tab ≡ false
      → ((q : CString) → device_at tab' q ≡ (if path_eq p q then some d else device_at tab q))
      → Registered tab tab' p d rc
  no_room :
      rc ≡ enospc
      → tab' ≡ tab
      → is_full tab ≡ true
      → device_at tab p ≡ none
      → Registered tab tab' p d rc
  refused :
      rc ≡ einval
      → tab' ≡ tab
      → (path_ok (some p) ≡ false) ⊎ ((d.ep ≡ 0) ⊎ (device_at tab p ≢ none))
      → Registered tab tab' p d rc

-- ulmk_dev_table_register adds exactly the device, under exactly the paths that compare equal, when
-- the path is well formed and free, the endpoint valid and a slot empty; it reports ENOSPC only for
-- a full table and EINVAL only for a bad path, an invalid endpoint or a path that is taken, and then
-- the table stays as it was.
pub register_refines :
    (tab : List Entry) (p : CString) (d : Device)
    → let (rc, tab') = table_register tab (some p) d.ep d.server d.cls d.instance_no in
      Registered tab tab' p d rc
unfolding table_register
register_refines tab p d = elim (Bool-cases (path_ok (some p))) [
  | inr bad ↦ rw bad (refused refl refl (inl bad))
  | inl good ↦ elim (Bool-cases (d.ep == 0)) [
    | inl zero_ep ↦ rw (good, zero_ep) (refused refl refl (inr (inl (==→eq d.ep 0 zero_ep))))
    | inr valid ↦ elim (Option-cases (device_at tab p)) [
      | inr (old, there) ↦
          rw (good, valid, scan_lem tab 0 p, there)
            (refused refl refl (inr (inr (λ absent. ground (arith, there)))))
      | inl absent ↦ elim (Bool-cases (is_full tab)) [
        | inl full ↦
            rw (good, valid, scan_lem tab 0 p, absent, full) (no_room refl refl full absent)
        | inr room ↦
            rw (good, valid, scan_lem tab 0 p, absent, room)
              (accepted refl (path_ok_sound p good) (λ e. ground arith) absent room
                (λ q. ground (
                  arith,
                  device_at-write p (path_ok_sound p good) d.ep d.server d.cls d.instance_no tab q
                      room absent,
                )))
      ]
    ]
  ]
]
