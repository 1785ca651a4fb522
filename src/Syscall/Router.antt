-- ===== src/Syscall/Router.antt =====
-- kernel/syscall/syscall_router.c: which handler a system call reaches.
use ulmk_microkernel.Base.{
  ℕ, ◌^◌, Bool, true, false, not, ◌&&◌, ◌||◌, Option, none, some, List, [], ◌∷◌, ltb, leb, ◌==◌,
  if◌then◌else◌, bit_and, einval, eperm, enotsup,
}

-- The handlers: `ulmk_kern_<name>`, and for the caches and the CPU's number `ulmk_arch_<name>`.
pub data Handler : Type 0 where
  mem_map : Handler
  mem_unmap : Handler
  mem_grant : Handler
  mem_revoke : Handler
  dcache_clean : Handler
  dcache_invalidate : Handler
  dcache_clean_invalidate : Handler
  yield : Handler
  exit : Handler
  sleep : Handler
  sleep_cancel : Handler
  ep_call_timeout : Handler
  tick_start : Handler
  thread_self : Handler
  cpu_id : Handler
  wcet_bind : Handler
  ep_create : Handler
  ep_call : Handler
  ep_recv : Handler
  ep_reply : Handler
  ep_reply_recv : Handler
  ep_grant : Handler
  ep_recv_or_notif : Handler
  ep_destroy : Handler
  notif_create : Handler
  notif_signal : Handler
  notif_wait : Handler
  notif_wait_timeout : Handler
  notif_poll : Handler
  notif_destroy : Handler
  irq_bind : Handler
  irq_enable : Handler
  irq_disable : Handler
  irq_ack : Handler
  irq_bind_hw : Handler
  irq_attach : Handler
  irq_attach_hw : Handler
  irq_detach : Handler
  thread_spawn : Handler
  thread_kill : Handler
  thread_suspend : Handler
  thread_resume : Handler
  thread_set_prio : Handler
  thread_get_prio : Handler
  cap_grant : Handler

-- ULMK_SYS_MAX
abbrev pub sys_max : ℕ
sys_max = 128

-- ULMK_CAP_SPAWN
abbrev pub cap_spawn : ℕ
cap_spawn = 2 ^ 0

-- ULMK_CAP_KILL
abbrev pub cap_kill : ℕ
cap_kill = 2 ^ 1

-- ULMK_CAP_IRQ
abbrev pub cap_irq : ℕ
cap_irq = 2 ^ 2

-- ULMK_CAP_MAP_PERIPH
abbrev pub cap_map_periph : ℕ
cap_map_periph = 2 ^ 3

-- ULMK_CAP_GRANT_CAP
abbrev pub cap_grant_cap : ℕ
cap_grant_cap = 2 ^ 4

-- ULMK_CAP_MAP_SHARED
abbrev pub cap_map_shared : ℕ
cap_map_shared = 2 ^ 5

-- ULMK_CAP_HEAP
abbrev pub cap_heap : ℕ
cap_heap = 2 ^ 6

-- ULMK_MMAP_ANON
abbrev pub mmap_anon : ℕ
mmap_anon = 2 ^ 0

-- ULMK_MMAP_PERIPH
abbrev pub mmap_periph : ℕ
mmap_periph = 2 ^ 1

-- ULMK_MMAP_SHARED
abbrev pub mmap_shared : ℕ
mmap_shared = 2 ^ 2

-- ULMK_PRIV_USER and ULMK_PRIV_DRIVER
abbrev pub priv_user : ℕ
priv_user = 0

abbrev pub priv_driver : ℕ
priv_driver = 1

-- REQUIRE_DRIVER, REQUIRE_CAP, and REQUIRE_CAP under a test of a bit of `a3`.
pub data Gate : Type 0 where
  driver : Gate
  cap : ℕ → Gate
  cap_if : ℕ → ℕ → Gate

-- A `case` of the switch.
pub record Case : Type 0 where
  pub nr : ℕ
  pub gates : List Gate
  pub handler : Handler

abbrev pub row : ℕ → List Gate → Handler → Case
row nr gates handler = record { nr = nr; gates = gates; handler = handler }

-- The switch of ulmk_syscall_router.
abbrev pub switch : List Case
switch =
    row 1
      (cap_if mmap_periph cap_map_periph
        ∷ cap_if mmap_shared cap_map_shared
        ∷ cap_if mmap_anon cap_heap
        ∷ [])
      mem_map
    ∷ row 2 [] mem_unmap
    ∷ row 3 [] mem_grant
    ∷ row 9 [] mem_revoke
    ∷ row 4 (driver ∷ []) dcache_clean
    ∷ row 5 (driver ∷ []) dcache_invalidate
    ∷ row 6 (driver ∷ []) dcache_clean_invalidate
    ∷ row 10 [] yield
    ∷ row 11 [] exit
    ∷ row 12 [] sleep
    ∷ row 13 (driver ∷ []) sleep_cancel
    ∷ row 14 [] ep_call_timeout
    ∷ row 15 (driver ∷ []) tick_start
    ∷ row 20 [] thread_self
    ∷ row 21 [] cpu_id
    ∷ row 22 [] wcet_bind
    ∷ row 30 [] ep_create
    ∷ row 31 [] ep_call
    ∷ row 32 [] ep_recv
    ∷ row 33 [] ep_reply
    ∷ row 34 [] ep_reply_recv
    ∷ row 35 [] ep_grant
    ∷ row 36 [] ep_recv_or_notif
    ∷ row 37 [] ep_destroy
    ∷ row 40 [] notif_create
    ∷ row 41 [] notif_signal
    ∷ row 42 [] notif_wait
    ∷ row 45 [] notif_wait_timeout
    ∷ row 43 [] notif_poll
    ∷ row 44 [] notif_destroy
    ∷ row 60 (driver ∷ cap cap_irq ∷ []) irq_bind
    ∷ row 61 (driver ∷ []) irq_enable
    ∷ row 62 (driver ∷ []) irq_disable
    ∷ row 63 (driver ∷ []) irq_ack
    ∷ row 64 (driver ∷ cap cap_irq ∷ []) irq_bind_hw
    ∷ row 65 (driver ∷ cap cap_irq ∷ []) irq_attach
    ∷ row 66 (driver ∷ cap cap_irq ∷ []) irq_attach_hw
    ∷ row 67 (driver ∷ cap cap_irq ∷ []) irq_detach
    ∷ row 70 (driver ∷ cap cap_spawn ∷ []) thread_spawn
    ∷ row 71 (driver ∷ cap cap_kill ∷ []) thread_kill
    ∷ row 72 (driver ∷ []) thread_suspend
    ∷ row 73 (driver ∷ []) thread_resume
    ∷ row 74 (driver ∷ []) thread_set_prio
    ∷ row 75 (driver ∷ []) thread_get_prio
    ∷ row 83 (driver ∷ cap cap_grant_cap ∷ []) cap_grant
    ∷ []

-- What the router reads of the current thread.
pub record Caller : Type 0 where
  pub privilege : ℕ
  pub cap_flags : ℕ

-- _caller_priv
abbrev pub caller_priv : Option Caller → ℕ
caller_priv none = priv_user
caller_priv (some t) = t.privilege

abbrev pub has_cap : Option Caller → ℕ → Bool
has_cap none c = false
has_cap (some t) c = not (bit_and t.cap_flags c == 0)

-- Does the gate let the caller on?
abbrev pub passes : Option Caller → ℕ → Gate → Bool
passes cur a3 driver = not (ltb (caller_priv cur) priv_driver)
passes cur a3 (cap c) = has_cap cur c
passes cur a3 (cap_if flag c) = if not (bit_and a3 flag == 0) then has_cap cur c else true

abbrev pub passes_all : Option Caller → ℕ → List Gate → Bool
passes_all cur a3 [] = true
passes_all cur a3 (g ∷ gs) = if passes cur a3 g then passes_all cur a3 gs else false

-- What becomes of the call: a handler is called with the arguments, or a word is returned at once.
pub data Verdict : Type 0 where
  reply : ℕ → Verdict
  call : Handler → Verdict

abbrev pub is_cache_op : Handler → Bool
is_cache_op dcache_clean = true
is_cache_op dcache_invalidate = true
is_cache_op dcache_clean_invalidate = true
is_cache_op _ = false

abbrev pub select : List Case → ℕ → Option Case
select [] nr = none
select (c ∷ cs) nr = let rest = select cs nr in if c.nr == nr then some c else rest

-- ulmk_syscall_router; `has_cache` is ULMK_ARCH_HAS_CACHE, `in_attach` what ulmk_irq_in_attach
-- returns and `cur` the current thread.
unfoldable pub router : Bool → Bool → Option Caller → ℕ → ℕ → Verdict
router has_cache in_attach cur nr a3 =
    if nr == 0 || leb sys_max nr
    then reply einval
    else (if in_attach then reply eperm else elim (select switch nr) [
      | none ↦ reply einval
      | some c ↦
          if passes_all cur a3 c.gates
          then (if is_cache_op c.handler && not has_cache then reply enotsup else call c.handler)
          else reply eperm
    ])
