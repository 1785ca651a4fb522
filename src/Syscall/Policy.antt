-- ===== src/Syscall/Policy.antt =====
-- The privilege and the capabilities that the caller of each system call needs, as a table that is
-- written down apart from the router. The table of system calls in docs/api_spec.md leaves
-- ULMK_SYS_SLEEP_CANCEL and ULMK_SYS_TICK_START open to any caller; here they are for drivers.
use ulmk_microkernel.Base.{
  ℕ, ◌^◌, ◌≤◌, ◌≡◌, ◌⊎◌, ◌↔◌, refl, sym, ◌∙◌, ap, subst, inl, inr, Bool, true, false, not, ◌&&◌,
  ◌||◌, Option, none, some, List, [], ◌∷◌, leb, ◌==◌, arith, Bool-cases, ==→eq, Option-cases,
  einval, eperm, enotsup,
}
use ulmk_microkernel.Bits.{bit, bit_and-pow}
use ulmk_microkernel.Syscall.Router.{
  Handler, mem_map, mem_unmap, mem_grant, mem_revoke, dcache_clean, dcache_invalidate,
  dcache_clean_invalidate, yield, exit, sleep, sleep_cancel, ep_call_timeout, tick_start,
  thread_self, cpu_id, wcet_bind, ep_create, ep_call, ep_recv, ep_reply, ep_reply_recv, ep_grant,
  ep_recv_or_notif, ep_destroy, notif_create, notif_signal, notif_wait, notif_wait_timeout,
  notif_poll, notif_destroy, irq_bind, irq_enable, irq_disable, irq_ack, irq_bind_hw, irq_attach,
  irq_attach_hw, irq_detach, thread_spawn, thread_kill, thread_suspend, thread_resume,
  thread_set_prio, thread_get_prio, cap_grant, driver, cap, cap_if, Case, row, switch, Caller,
  caller_priv, has_cap, passes_all, Verdict, reply, call, is_cache_op, select, router, mmap_anon,
  mmap_periph, mmap_shared, cap_map_periph, cap_map_shared, cap_heap, sys_max,
}

-- The calls for drivers.
abbrev pub needs_driver : Handler → Bool
needs_driver dcache_clean = true
needs_driver dcache_invalidate = true
needs_driver dcache_clean_invalidate = true
needs_driver sleep_cancel = true
needs_driver tick_start = true
needs_driver irq_bind = true
needs_driver irq_enable = true
needs_driver irq_disable = true
needs_driver irq_ack = true
needs_driver irq_bind_hw = true
needs_driver irq_attach = true
needs_driver irq_attach_hw = true
needs_driver irq_detach = true
needs_driver thread_spawn = true
needs_driver thread_kill = true
needs_driver thread_suspend = true
needs_driver thread_resume = true
needs_driver thread_set_prio = true
needs_driver thread_get_prio = true
needs_driver cap_grant = true
needs_driver _ = false

-- Does the call, with these flags in `a3`, need the capability whose bit is `j`?
abbrev pub needs_cap : Handler → ℕ → ℕ → Bool
needs_cap mem_map a3 j = (j == 3 && bit a3 1) || (j == 5 && bit a3 2) || (j == 6 && bit a3 0)
needs_cap irq_bind a3 j = j == 2
needs_cap irq_bind_hw a3 j = j == 2
needs_cap irq_attach a3 j = j == 2
needs_cap irq_attach_hw a3 j = j == 2
needs_cap irq_detach a3 j = j == 2
needs_cap thread_spawn a3 j = j == 0
needs_cap thread_kill a3 j = j == 1
needs_cap cap_grant a3 j = j == 4
needs_cap _ a3 j = false

abbrev pub holds_cap : Option Caller → ℕ → Bool
holds_cap none j = false
holds_cap (some t) j = bit t.cap_flags j

-- The caller has all that the call needs.
pub record Permitted (cur : Option Caller) (a3 : ℕ) (h : Handler) : Type 0 where
  pub privileged : needs_driver h ≡ true → 1 ≤ caller_priv cur
  pub capable : (j : ℕ) → needs_cap h a3 j ≡ true → holds_cap cur j ≡ true

has_cap_lem : (cur : Option Caller) (j : ℕ) → has_cap cur (2 ^ j) ≡ holds_cap cur j
has_cap_lem none j = refl
has_cap_lem (some t) j = ground (arith, bit_and-pow t.cap_flags j)

-- The gates of a case let on just the callers that have all that the call needs.
abbrev IsExact : Case → Type 0
IsExact c =
    (cur : Option Caller) (a3 : ℕ) → (passes_all cur a3 c.gates ≡ true) ↔ Permitted cur a3 c.handler

open_row :
    (nr : ℕ) (h : Handler)
    → needs_driver h ≡ false
    → ((a3 j : ℕ) → needs_cap h a3 j ≡ false)
    → IsExact (row nr [] h)
open_row nr h d c cur a3 = (
  λ e. record {
    privileged = λ n. absurd (ground arith);
    capable = λ j n. absurd (ground (arith, c a3 j));
  },
  λ p. refl,
)

driver_row :
    (nr : ℕ) (h : Handler)
    → needs_driver h ≡ true
    → ((a3 j : ℕ) → needs_cap h a3 j ≡ false)
    → IsExact (row nr (driver ∷ []) h)
driver_row nr h d c cur a3 = (
  λ e. record { privileged = λ n. ground arith; capable = λ j n. absurd (ground (arith, c a3 j)) },
  λ p. ground (arith, p.privileged d),
)

cap_row :
    (nr b : ℕ) (h : Handler)
    → needs_driver h ≡ true
    → ((a3 j : ℕ) → needs_cap h a3 j ≡ (j == b))
    → IsExact (row nr (driver ∷ cap (2 ^ b) ∷ []) h)
cap_row nr b h d c cur a3 = (
  λ e. record {
    privileged = λ n. ground arith;
    capable = λ j n. rw (==→eq j b (sym (c a3 j) ∙ n)) (sym (has_cap_lem cur b) ∙ ground arith);
  },
  λ p. ground (arith, p.privileged d, p.capable b, c a3 b, has_cap_lem cur b),
)

map_caps :
    (cur : Option Caller) (a3 j : ℕ)
    → passes_all cur a3 (
        cap_if mmap_periph cap_map_periph
        ∷ cap_if mmap_shared cap_map_shared
        ∷ cap_if mmap_anon cap_heap
        ∷ [])
      ≡ true
    → needs_cap mem_map a3 j ≡ true
    → holds_cap cur j ≡ true
map_caps cur a3 j e n = elim (Bool-cases (j == 3 && bit a3 1)) [
  | inl periph ↦ rw (==→eq j 3 (ground arith)) (ground (arith, bit_and-pow a3 1, has_cap_lem cur 3))
  | inr a ↦ elim (Bool-cases (j == 5 && bit a3 2)) [
    | inl shared ↦
        rw (==→eq j 5 (ground arith)) (ground (arith, bit_and-pow a3 2, has_cap_lem cur 5))
    | inr b ↦ rw (==→eq j 6 (ground arith)) (ground (arith, bit_and-pow a3 0, has_cap_lem cur 6))
  ]
]

map_row : IsExact (
    row 1
      (cap_if mmap_periph cap_map_periph
        ∷ cap_if mmap_shared cap_map_shared
        ∷ cap_if mmap_anon cap_heap
        ∷ [])
      mem_map)
map_row cur a3 = (
  λ e. record { privileged = λ n. absurd (ground arith); capable = λ j n. map_caps cur a3 j e n },
  λ p. ground (
    arith,
    bit_and-pow a3 0,
    bit_and-pow a3 1,
    bit_and-pow a3 2,
    has_cap_lem cur 3,
    has_cap_lem cur 5,
    has_cap_lem cur 6,
    p.capable 3,
    p.capable 5,
    p.capable 6,
  ),
)

infixr 5 ◌and◌
data AllExact : List Case → Type 0 where
  none_left : AllExact []
  ◌and◌ : {c : Case} {cs : List Case} → IsExact c → AllExact cs → AllExact (c ∷ cs)

switch-exact : AllExact switch
switch-exact =
    map_row
    and open_row 2 mem_unmap refl (λ a3 j. refl)
    and open_row 3 mem_grant refl (λ a3 j. refl)
    and open_row 9 mem_revoke refl (λ a3 j. refl)
    and driver_row 4 dcache_clean refl (λ a3 j. refl)
    and driver_row 5 dcache_invalidate refl (λ a3 j. refl)
    and driver_row 6 dcache_clean_invalidate refl (λ a3 j. refl)
    and open_row 10 yield refl (λ a3 j. refl)
    and open_row 11 exit refl (λ a3 j. refl)
    and open_row 12 sleep refl (λ a3 j. refl)
    and driver_row 13 sleep_cancel refl (λ a3 j. refl)
    and open_row 14 ep_call_timeout refl (λ a3 j. refl)
    and driver_row 15 tick_start refl (λ a3 j. refl)
    and open_row 20 thread_self refl (λ a3 j. refl)
    and open_row 21 cpu_id refl (λ a3 j. refl)
    and open_row 22 wcet_bind refl (λ a3 j. refl)
    and open_row 30 ep_create refl (λ a3 j. refl)
    and open_row 31 ep_call refl (λ a3 j. refl)
    and open_row 32 ep_recv refl (λ a3 j. refl)
    and open_row 33 ep_reply refl (λ a3 j. refl)
    and open_row 34 ep_reply_recv refl (λ a3 j. refl)
    and open_row 35 ep_grant refl (λ a3 j. refl)
    and open_row 36 ep_recv_or_notif refl (λ a3 j. refl)
    and open_row 37 ep_destroy refl (λ a3 j. refl)
    and open_row 40 notif_create refl (λ a3 j. refl)
    and open_row 41 notif_signal refl (λ a3 j. refl)
    and open_row 42 notif_wait refl (λ a3 j. refl)
    and open_row 45 notif_wait_timeout refl (λ a3 j. refl)
    and open_row 43 notif_poll refl (λ a3 j. refl)
    and open_row 44 notif_destroy refl (λ a3 j. refl)
    and cap_row 60 2 irq_bind refl (λ a3 j. refl)
    and driver_row 61 irq_enable refl (λ a3 j. refl)
    and driver_row 62 irq_disable refl (λ a3 j. refl)
    and driver_row 63 irq_ack refl (λ a3 j. refl)
    and cap_row 64 2 irq_bind_hw refl (λ a3 j. refl)
    and cap_row 65 2 irq_attach refl (λ a3 j. refl)
    and cap_row 66 2 irq_attach_hw refl (λ a3 j. refl)
    and cap_row 67 2 irq_detach refl (λ a3 j. refl)
    and cap_row 70 0 thread_spawn refl (λ a3 j. refl)
    and cap_row 71 1 thread_kill refl (λ a3 j. refl)
    and driver_row 72 thread_suspend refl (λ a3 j. refl)
    and driver_row 73 thread_resume refl (λ a3 j. refl)
    and driver_row 74 thread_set_prio refl (λ a3 j. refl)
    and driver_row 75 thread_get_prio refl (λ a3 j. refl)
    and cap_row 83 4 cap_grant refl (λ a3 j. refl)
    and none_left

abbrev from_case : Case → Option Case → Case
from_case d none = d
from_case d (some c) = c

select-IsExact :
    (cs : List Case) (nr : ℕ) (c : Case) → AllExact cs → select cs nr ≡ some c → IsExact c
select-IsExact [] nr c none_left h = absurd (ground arith)
select-IsExact (d ∷ cs) nr c (e and es) h = elim (Bool-cases (d.nr == nr)) [
  | inl here ↦
      let same : some d ≡ some c = ground (arith, here) in subst IsExact (ap (from_case d) same) e
  | inr later ↦ select-IsExact cs nr c es (ground arith)
]

out_of_range :
    (nr : ℕ)
    → (nr == 0 || leb sys_max nr) ≡ true
    → (nr ≡ 0) ⊎ ((sys_max ≤ nr) ⊎ (select switch nr ≡ none))
out_of_range nr bad = elim (Bool-cases (nr == 0)) [
  | inl null ↦ inl (==→eq nr 0 null)
  | inr some_nr ↦ inr (inl (ground arith))
]

-- What the router makes of a call.
pub data Routed (has_cache in_attach : Bool) (cur : Option Caller) (nr a3 : ℕ) (v : Verdict)
    : Type 0 where
  served :
      (c : Case)
      → select switch nr ≡ some c
      → v ≡ call c.handler
      → in_attach ≡ false
      → Permitted cur a3 c.handler
      → Routed has_cache in_attach cur nr a3 v
  without_cache :
      (c : Case)
      → select switch nr ≡ some c
      → v ≡ reply enotsup
      → (is_cache_op c.handler ≡ true) × (has_cache ≡ false)
      → in_attach ≡ false
      → Permitted cur a3 c.handler
      → Routed has_cache in_attach cur nr a3 v
  denied :
      (c : Case)
      → select switch nr ≡ some c
      → v ≡ reply eperm
      → (Permitted cur a3 c.handler → ⊥)
      → Routed has_cache in_attach cur nr a3 v
  nested : v ≡ reply eperm → in_attach ≡ true → Routed has_cache in_attach cur nr a3 v
  unknown :
      v ≡ reply einval
      → (nr ≡ 0) ⊎ ((sys_max ≤ nr) ⊎ (select switch nr ≡ none))
      → Routed has_cache in_attach cur nr a3 v

-- A system call reaches its handler just when the number has a case, no interrupt callback runs and
-- the caller has the privilege and every capability that the call needs; a number without a case is
-- refused with EINVAL, and EPERM means a call from a callback or a caller who lacks something.
pub router_refines :
    (has_cache in_attach : Bool) (cur : Option Caller) (nr a3 : ℕ)
    → Routed has_cache in_attach cur nr a3 (router has_cache in_attach cur nr a3)
unfolding router
router_refines has_cache in_attach cur nr a3 = elim (Bool-cases (nr == 0 || leb sys_max nr)) [
  | inl bad ↦ rw bad (unknown refl (out_of_range nr bad))
  | inr good ↦ elim (Bool-cases in_attach) [
    | inl inside ↦ rw (good, inside) (nested refl refl)
    | inr outside ↦ elim (Option-cases (select switch nr)) [
      | inl missing ↦ rw (good, outside, missing) (unknown refl (inr (inr missing)))
      | inr (c, found) ↦
          let exact = select-IsExact switch nr c switch-exact found cur a3 in
          elim (Bool-cases (passes_all cur a3 c.gates)) [
            | inr stopped ↦
                rw (good, outside, found, stopped)
                  (denied c found refl (λ p. ground (arith, exact.1 p)))
            | inl let_on ↦ elim (Bool-cases (is_cache_op c.handler && not has_cache)) [
              | inl lacking ↦
                  rw (good, outside, found, let_on, lacking)
                    (without_cache c found refl (ground arith, ground arith) refl (exact.0 let_on))
              | inr there ↦
                  rw (good, outside, found, let_on, there)
                    (served c found refl refl (exact.0 let_on))
            ]
          ]
    ]
  ]
]
