-- ===== src/Device/Path.antt =====
-- components/ulmk_device_manager/src/registry.c: device paths. A `char *` is the byte at each
-- offset; the buffers are ULMK_DEV_PATH_MAX bytes and the loops stay inside them.
use ulmk_microkernel.Base.{
  ℕ, zero, suc, ◌+◌, Bool, true, false, not, Option, none, some, ltb, ◌==◌, if◌then◌else◌,
}

abbrev pub CString : Type 0
CString = ℕ → ℕ

-- ULMK_DEV_INLINE_BYTES and ULMK_DEV_PATH_MAX
abbrev pub inline_bytes : ℕ
inline_bytes = 20

abbrev pub path_max : ℕ
path_max = inline_bytes + 1

-- One byte written.
abbrev pub put : CString → ℕ → ℕ → CString
put s i v j = if i == j then v else s j

-- The loop of ulmk_dev_path_ok from `i`, with `n` rounds left.
unfoldable pub path_scan : ℕ → ℕ → CString → Bool
path_scan zero i path = false
path_scan (suc n) i path =
    let rest = path_scan n (i + 1) path in if path i == 0 then ltb 1 i else rest

-- ulmk_dev_path_ok; `none` is NULL
unfoldable pub path_ok : Option CString → Bool
path_ok none = false
path_ok (some path) = if not (path 0 == b'/') then false else path_scan inline_bytes 0 path

unfoldable pub eq_loop : ℕ → ℕ → CString → CString → Bool
eq_loop zero i a b = true
eq_loop (suc n) i a b =
    let rest = eq_loop n (i + 1) a b in
    if not (a i == b i) then false else (if a i == 0 then true else rest)

-- ulmk_dev_path_eq
unfoldable pub path_eq : CString → CString → Bool
path_eq a b = eq_loop path_max 0 a b

unfoldable pub copy_loop : ℕ → ℕ → CString → CString → CString
copy_loop zero i dst src = put dst i 0
copy_loop (suc n) i dst src =
    let rest = copy_loop n (i + 1) (put dst i (src i)) src in
    if src i == 0 then put dst i (src i) else rest

-- ulmk_dev_path_copy, the destination as it was and the result
unfoldable pub path_copy : CString → CString → CString
path_copy dst src = copy_loop inline_bytes 0 dst src
