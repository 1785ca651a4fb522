-- ===== src/Ep/Sides/Lifetime.antt =====
-- The queues after ep_destroy_impl and ulmk_ep_init of kernel/ipc/ep.c.
use ulmk_microkernel.Base.{
  ℕ, zero, suc, ◌≡◌, refl, ◌∙◌, sym, ap, false, [], ◌==◌, put_at, Bool-cases, Option-cases, inl,
  inr, ==→eq,
}
use ulmk_microkernel.Dlist.{Dlist, mem}
use ulmk_microkernel.Ep.Object.{
  ep_init, Ipc, send_queue, recv_queue, ep_by_id, wake_blocked_on_destroy,
}
use ulmk_microkernel.Ep.Outcomes.{List-cases, get_none, get_first}
use ulmk_microkernel.Ep.Teardown.{wake_queue, ep_destroy}
use ulmk_microkernel.Ep.Sides.{IsOneSided, head-IsOneSided, off_queue-IsOneSided}

module _ (D : Dlist) where
  wake_queue-IsOneSided :
      (fuel : ℕ) (k : Ipc D) (q : ℕ)
      → IsOneSided D k.links
      → IsOneSided D (wake_queue D fuel k q).links
  unfolding wake_queue wake_blocked_on_destroy
  wake_queue-IsOneSided zero k q w = w
  wake_queue-IsOneSided (suc fuel) k q w = elim (List-cases (D.nodes k.links q)) [
    | inl empty ↦ rw (wake_queue, get_none D k.links q empty) w
    | inr (t, rest, e) ↦
        let first = get_first D k.links q t rest e in
        let off = head-IsOneSided D k.links q t rest w e in
        rw (wake_queue, first, first)
          (wake_queue-IsOneSided fuel _ q (off_queue-IsOneSided D _ t off))
  ]

  pub destroy-IsOneSided :
      (fuel : ℕ) (k : Ipc D) (id : ℕ)
      → IsOneSided D k.links
      → IsOneSided D (ep_destroy D fuel k id).1.links
  unfolding ep_destroy
  destroy-IsOneSided fuel k id w = elim (Option-cases (ep_by_id D k id)) [
    | inl closed ↦ rw (ep_destroy, closed) w
    | inr (ep, usable) ↦
        rw (ep_destroy, usable)
          (wake_queue-IsOneSided fuel _ (recv_queue ep) (
            wake_queue-IsOneSided fuel (record k { active = put_at k.active ep false })
              (send_queue ep) w))
  ]

  emptied : (s : D.Links) (l q : ℕ) → D.nodes s l ≡ [] → D.nodes (D.list_init s l) q ≡ D.nodes s q
  emptied s l q e = elim (Bool-cases (l == q)) [
    | inl h ↦ D.nodes-list_init s l q ∙ rw h (sym e ∙ ap (D.nodes s) (==→eq l q h))
    | inr h ↦ D.nodes-list_init s l q ∙ rw h refl
  ]

  nodes-init :
      (k : Ipc D) (ep q : ℕ)
      → D.nodes k.links (send_queue ep) ≡ []
      → D.nodes k.links (recv_queue ep) ≡ []
      → D.nodes (ep_init D k ep).links q ≡ D.nodes k.links q
  unfolding ep_init
  nodes-init k ep q no_send no_recv =
      let none_left = emptied k.links (send_queue ep) (recv_queue ep) no_send ∙ no_recv in
      emptied (D.list_init k.links (send_queue ep)) (recv_queue ep) q none_left
      ∙ emptied k.links (send_queue ep) q no_send

  linked-init :
      (k : Ipc D) (ep t : ℕ) → D.is_linked (ep_init D k ep).links t ≡ D.is_linked k.links t
  unfolding ep_init
  linked-init k ep t =
      D.linked-list_init (D.list_init k.links (send_queue ep)) (recv_queue ep) t
      ∙ D.linked-list_init k.links (send_queue ep) t

  -- An endpoint is made where nobody waits.
  pub init-IsOneSided :
      (k : Ipc D) (ep : ℕ)
      → IsOneSided D k.links
      → D.nodes k.links (send_queue ep) ≡ []
      → D.nodes k.links (recv_queue ep) ≡ []
      → IsOneSided D (ep_init D k ep).links
  init-IsOneSided k ep w no_send no_recv = record {
    sides = λ e.
        rw
          (
            nodes-init k ep (send_queue e) no_send no_recv,
            nodes-init k ep (recv_queue e) no_send no_recv,
          )
          (w.sides e);
    listed = λ t on.
        let (q, there) = w.listed t (sym (linked-init k ep t) ∙ on) in
        (q, ap (mem t) (nodes-init k ep q no_send no_recv) ∙ there);
  }
