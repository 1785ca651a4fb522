-- ===== src/Base/Codes.antt =====
-- include/ulmk/microkernel.h: the error codes. A code is an `int`, kept as its 32-bit pattern: what
-- the system call wrappers return through `(uint32_t)(int32_t)`.
use Prim.Native.Nat.{ℕ, ◌-◌, ◌%◌, ◌^◌}

abbrev pub u32_mod : ℕ
u32_mod = 2 ^ 32

-- `-x` of an `int`
abbrev pub neg32 : ℕ → ℕ
neg32 x = (u32_mod - x) % u32_mod

abbrev pub ok : ℕ
ok = 0

abbrev pub einval : ℕ
einval = u32_mod - 1

abbrev pub enomem : ℕ
enomem = u32_mod - 2

abbrev pub eperm : ℕ
eperm = u32_mod - 3

abbrev pub enospc : ℕ
enospc = u32_mod - 4

abbrev pub esrch : ℕ
esrch = u32_mod - 6

abbrev pub etimeout : ℕ
etimeout = u32_mod - 7

abbrev pub ecanceled : ℕ
ecanceled = u32_mod - 8

abbrev pub enotsup : ℕ
enotsup = u32_mod - 9
