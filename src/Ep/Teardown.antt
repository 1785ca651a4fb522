-- ===== src/Ep/Teardown.antt =====
-- kernel/ipc/ep.c: ep_destroy_impl.
use ulmk_microkernel.Base.{ℕ, zero, suc, false, none, some, ◌∷◌, put_at, neg32, ok, einval}
use ulmk_microkernel.Dlist.{Dlist}
use ulmk_microkernel.Notif.Object.{kick_pending, heap_free}
use ulmk_microkernel.Ep.Object.{
  Ipc, send_queue, recv_queue, ep_by_id, ipc_pop_head, wake_blocked_on_destroy,
}

module _ (D : Dlist) where
  -- The loops of ep_destroy_impl, on fuel: one round for each thread of the queue.
  unfoldable pub wake_queue : ℕ → Ipc D → ℕ → Ipc D
  unfolding wake_blocked_on_destroy
  wake_queue zero k queue = k
  wake_queue (suc fuel) k queue = elim (ipc_pop_head D k.links queue).0 [
    | none ↦ k
    | some t ↦
        wake_queue fuel
          (wake_blocked_on_destroy D (record k { links = (ipc_pop_head D k.links queue).1 }) t
            einval)
          queue
  ]

  unfoldable pub ep_destroy : ℕ → Ipc D → ℕ → ℕ × Ipc D
  unfolding wake_queue
  ep_destroy fuel k id = elim (ep_by_id D k id) [
    | none ↦ (neg32 einval, k)
    | some ep ↦
        let dead = record k { active = put_at k.active ep false } in
        let woken = wake_queue fuel (wake_queue fuel dead (send_queue ep)) (recv_queue ep) in
        (ok, record woken { events = kick_pending ∷ heap_free ep ∷ woken.events })
  ]
