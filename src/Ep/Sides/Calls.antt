-- ===== src/Ep/Sides/Calls.antt =====
-- The queues after the plain calls of kernel/ipc/ep.c, a time limit and a removal.
use ulmk_microkernel.Base.{
  ℕ, ◌≡◌, refl, false, not, ◌||◌, Option, some, ◌==◌, bit_and, Bool-cases, Option-cases, inl, inr,
}
use ulmk_microkernel.Dlist.{Dlist}
use ulmk_microkernel.Ep.Object.{
  Ipc, send_queue, recv_queue, ep_by_id, recv_queue_remove, call_timeout_cb,
  prepare_server_delivery, blocked_ipc_call, thread_by_tid,
}
use ulmk_microkernel.Notif.Object.{state_blocked, notif_invalid}
use ulmk_microkernel.Ep.Outcomes.{List-cases, get_none, get_first}
use ulmk_microkernel.Ep.Calls.{
  call_rendezvous, ep_call, take_request, ep_recv, unboosted, answer, ep_reply,
}
use ulmk_microkernel.Ep.Either.{ep_recv_or_notif}
use ulmk_microkernel.Ep.Sides.{
  IsOneSided, send-IsOneSided, recv-IsOneSided, head-IsOneSided, off_queue-IsOneSided,
}

module _ (D : Dlist) where
  module _ (k : Ipc D) (w : IsOneSided D k.links) where
    pub rendezvous-IsOneSided :
        (cur ep msg : ℕ)
        → D.is_linked k.links cur ≡ false
        → IsOneSided D (call_rendezvous D k cur ep msg).1.links
    unfolding call_rendezvous prepare_server_delivery
    rendezvous-IsOneSided cur ep msg fresh = elim (List-cases (D.nodes k.links (recv_queue ep))) [
      | inl empty ↦
          rw (call_rendezvous, get_none D k.links (recv_queue ep) empty)
            (send-IsOneSided D k.links ep cur w fresh empty)
      | inr (t, rest, e) ↦
          let first = get_first D k.links (recv_queue ep) t rest e in
          rw (call_rendezvous, first, first) (head-IsOneSided D k.links (recv_queue ep) t rest w e)
    ]

    pub call-IsOneSided :
        (cur id msg : ℕ)
        → D.is_linked k.links cur ≡ false
        → IsOneSided D (ep_call D k (some cur) id msg).1.links
    unfolding ep_call
    call-IsOneSided cur id msg fresh = elim (Bool-cases (msg == 0)) [
      | inl e ↦ rw e w
      | inr e ↦ elim (Option-cases (ep_by_id D k id)) [
        | inl closed ↦ rw (e, closed) w
        | inr (ep, usable) ↦ rw (e, usable) (rendezvous-IsOneSided cur ep msg fresh)
      ]
    ]

    pub recv_call-IsOneSided :
        (cur id msg sender : ℕ)
        → D.is_linked k.links cur ≡ false
        → IsOneSided D (ep_recv D k (some cur) id msg sender).1.links
    unfolding ep_recv take_request
    recv_call-IsOneSided cur id msg sender fresh = elim (Bool-cases (msg == 0)) [
      | inl e ↦ rw e w
      | inr e ↦ elim (Option-cases (ep_by_id D k id)) [
        | inl closed ↦ rw (e, closed) w
        | inr (ep, usable) ↦ elim (List-cases (D.nodes k.links (send_queue ep))) [
          | inl empty ↦
              rw (e, usable, get_none D k.links (send_queue ep) empty)
                (recv-IsOneSided D k.links ep cur w fresh empty)
          | inr (t, rest, there) ↦
              let first = get_first D k.links (send_queue ep) t rest there in
              rw (e, usable, first, first)
                (head-IsOneSided D k.links (send_queue ep) t rest w there)
        ]
      ]
    ]

    pub remove-IsOneSided : (t : ℕ) → IsOneSided D (recv_queue_remove D k t).links
    unfolding recv_queue_remove
    remove-IsOneSided t = elim (Bool-cases ((k.thread t).waits_on_ep == 0)) [
      | inl nowhere ↦ rw nowhere w
      | inr waits ↦ rw waits (off_queue-IsOneSided D k.links t w)
    ]

    pub timeout-IsOneSided : (t : ℕ) → IsOneSided D (call_timeout_cb D k t).links
    unfolding call_timeout_cb
    timeout-IsOneSided t =
        elim (Bool-cases (
          not ((k.thread t).state == state_blocked)
          || not ((k.thread t).reason == blocked_ipc_call))) [
            | inl idle ↦ rw idle w
            | inr waits ↦ rw waits (remove-IsOneSided t)
          ]

    answer-links : (cur : Option ℕ) (a reply : ℕ) → (answer D k cur a reply).links ≡ k.links
    unfolding answer
    answer-links cur a reply = elim (Bool-cases ((unboosted D k.thread cur a).msg_outptr == 0)) [
      | inl bounce ↦ rw bounce refl
      | inr real ↦ rw real refl
    ]

    pub reply-links :
        (cur : Option ℕ) (tid reply : ℕ) → (ep_reply D k cur tid reply).1.links ≡ k.links
    unfolding ep_reply
    reply-links cur tid reply = elim (Bool-cases (reply == 0)) [
      | inl e ↦ rw (ep_reply, e) refl
      | inr e ↦ elim (Option-cases (thread_by_tid D k tid)) [
        | inl unknown ↦ rw (ep_reply, e, unknown) refl
        | inr (a, known) ↦ elim (Bool-cases (not ((k.thread a).reason == blocked_ipc_call))) [
          | inl other ↦ rw (ep_reply, e, known, other) refl
          | inr calls ↦ rw (ep_reply, e, known, calls) (answer-links cur a reply)
        ]
      ]
    ]

    pub notif-IsOneSided :
        (cur id n mask res : ℕ)
        → D.is_linked k.links cur ≡ false
        → IsOneSided D (ep_recv_or_notif D k (some cur) id n mask res).1.links
    unfolding ep_recv_or_notif
    notif-IsOneSided cur id n mask res fresh = elim (Bool-cases (res == 0)) [
      | inl e ↦ rw e w
      | inr e ↦ elim (Option-cases (ep_by_id D k id)) [
        | inl closed ↦ rw (e, closed) w
        | inr (ep, usable) ↦ elim (Bool-cases (n == notif_invalid || not (k.notif n).active)) [
          | inl bad ↦ rw (e, usable, bad) w
          | inr good ↦ elim (Bool-cases (not (bit_and (k.notif n).bits mask == 0))) [
            | inl met ↦ rw (e, usable, good, met) w
            | inr unmet ↦ elim (List-cases (D.nodes k.links (send_queue ep))) [
              | inl empty ↦
                  rw (e, usable, good, unmet, get_none D k.links (send_queue ep) empty)
                    (recv-IsOneSided D k.links ep cur w fresh empty)
              | inr (t, rest, there) ↦
                  let first = get_first D k.links (send_queue ep) t rest there in
                  rw (e, usable, good, unmet, first, first)
                    (head-IsOneSided D k.links (send_queue ep) t rest w there)
            ]
          ]
        ]
      ]
    ]
