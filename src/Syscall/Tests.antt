-- ===== src/Syscall/Tests.antt =====
-- Runs of the router, and its theorem at a concrete call.
use ulmk_microkernel.Base.{◌≡◌, refl, true, false, some, eperm}
use ulmk_microkernel.Syscall.Router.{
  Caller, router, reply, call, thread_spawn, cap_spawn, priv_driver,
}
use ulmk_microkernel.Syscall.Policy.{Routed, router_refines}

abbrev spawner : Caller
spawner = record { privilege = priv_driver; cap_flags = cap_spawn }

may_spawn : router true false (some spawner) 70 0 ≡ call thread_spawn
unfolding router
may_spawn = refl

may_not_kill : router true false (some spawner) 71 0 ≡ reply eperm
unfolding router
may_not_kill = refl

router_refines_example :
    Routed true false (some spawner) 71 0 (router true false (some spawner) 71 0)
router_refines_example = router_refines true false (some spawner) 71 0
