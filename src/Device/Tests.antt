-- ===== src/Device/Tests.antt =====
-- Runs of the device table, and its theorems at concrete inputs.
use mathlib.Core.Option
use ulmk_microkernel.Base.{
  ◌≡◌, refl, some, ◌↔◌, esrch, arith, get_or, [], ◌∷◌, true, false, if◌then◌else◌, List, ok,
}
use ulmk_microkernel.Device.Path.{
  CString, path_ok, path_scan, path_eq, eq_loop, path_copy, path_max,
}
use ulmk_microkernel.Device.Strings.{
  AgreeTo, IsPath, path_eq_iff, path_ok_sound, path_ok_iff, path_copy_agrees,
}
use ulmk_microkernel.Device.Table.{
  Entry, table_register, table_unregister, table_lookup, scan_slots, write_slot, clear_first,
}
use ulmk_microkernel.Device.Registry.{
  Device, Registered, device_of, is_none, device_at, register_refines,
}
use ulmk_microkernel.Device.Unique.{
  IsUnique, Unregistered, register-IsUnique, unregister_refines, lookup_refines,
}

-- "/uart"
abbrev uart : CString
uart k = get_or (b'/' ∷ b'u' ∷ b'a' ∷ b'r' ∷ b't' ∷ []) k 0

abbrev empty_slot : Entry
empty_slot = record { path = λ _. 0; ep = 0; server = 0; cls = 0; instance_no = 0; used = false }

abbrev two_slots : List Entry
two_slots = empty_slot ∷ empty_slot ∷ []

abbrev device : Device
device = record { ep = 64; server = 5; cls = 1; instance_no = 0 }

register_run : (table_register two_slots (some uart) 64 5 1 0).0 ≡ ok
unfolding table_register path_ok path_scan scan_slots write_slot
register_run = refl

two_slots-IsUnique : IsUnique two_slots
two_slots-IsUnique = (λ h. absurd (ground arith), (λ h. absurd (ground arith), _))

uart_ok : path_ok (some uart) ≡ true
unfolding path_ok path_scan
uart_ok = refl

path_eq_iff_example : (path_eq uart uart ≡ true) ↔ AgreeTo path_max uart uart
path_eq_iff_example = path_eq_iff uart uart

path_ok_iff_example : (path_ok (some uart) ≡ true) ↔ IsPath uart
path_ok_iff_example = path_ok_iff uart

path_copy_agrees_example : AgreeTo path_max uart (path_copy (λ _. 9) uart)
path_copy_agrees_example = path_copy_agrees (λ _. 9) uart (path_ok_sound uart uart_ok)

register_refines_example :
    let (rc, tab) = table_register two_slots (some uart) 64 5 1 0 in
    Registered two_slots tab uart device rc
register_refines_example = register_refines two_slots uart device

register-IsUnique_example : IsUnique (table_register two_slots (some uart) 64 5 1 0).1
register-IsUnique_example = register-IsUnique two_slots uart device two_slots-IsUnique

abbrev one_device : List Entry
one_device =
    record { path = uart; ep = 64; server = 5; cls = 1; instance_no = 0; used = true }
    ∷ empty_slot
    ∷ []

one_device-IsUnique : IsUnique one_device
one_device-IsUnique = (λ h. refl, (λ h. absurd (ground arith), _))

unregister_run : (table_unregister one_device (some uart)).0 ≡ ok
unfolding table_unregister path_ok path_scan clear_first path_eq eq_loop
unregister_run = refl

unregister_refines_example :
    let (rc, tab) = table_unregister one_device (some uart) in
    Unregistered one_device tab uart rc × IsUnique tab
unregister_refines_example = unregister_refines one_device uart one_device-IsUnique

lookup_refines_example :
    let (rc, out) = table_lookup one_device (some uart) in
    (Option.map device_of out ≡ device_at one_device uart)
    × (rc ≡ (if is_none out then esrch else ok))
lookup_refines_example = lookup_refines one_device uart uart_ok
