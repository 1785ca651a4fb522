-- ===== src/Ep/Either.antt =====
-- kernel/ipc/ep.c: the receive of a message or a notification.
use ulmk_microkernel.Base.{
  ℕ, true, false, not, ◌||◌, Option, none, some, ◌∷◌, ◌==◌, if◌then◌else◌, put_at, bit_and, neg32,
  ok, einval,
}
use ulmk_microkernel.Bits.{complement}
use ulmk_microkernel.Dlist.{Dlist}
use ulmk_microkernel.Notif.Object.{
  dequeue, kick_pending, state_blocked, blocked_ipc_or_notif, notif_invalid,
}
use ulmk_microkernel.Ep.Object.{
  Ipc, send_queue, recv_queue, tid_invalid, apply_prio_inherit, ep_by_id, ipc_pop_head,
  caller_request,
}

module _ (D : Dlist) where
  -- ep_recv_or_notif_impl
  unfoldable pub ep_recv_or_notif : Ipc D → Option ℕ → ℕ → ℕ → ℕ → ℕ → ℕ × Ipc D
  ep_recv_or_notif k none id n mask res = (neg32 einval, k)
  ep_recv_or_notif k (some cur) id n mask res =
      if res == 0 then (neg32 einval, k) else elim (ep_by_id D k id) [
        | none ↦ (neg32 einval, k)
        | some ep ↦
            let o = k.notif n in
            let matched = bit_and o.bits mask in
            let (caller, links) = ipc_pop_head D k.links (send_queue ep) in
            if n == notif_invalid || not o.active
            then (neg32 einval, k)
            else (if not (matched == 0)
                then (
                  1,
                  record k {
                    notif =
                        put_at k.notif n
                          (record o { bits = bit_and o.bits (complement 32 matched) });
                    result_at = put_at k.result_at res (record (k.result_at res) {
                      is_notif = true;
                      notif_bits = matched;
                      sender = tid_invalid;
                    });
                  },
                )
                else elim caller [
                  | some c ↦
                      let m = caller_request D k c in
                      (
                        ok,
                        record k {
                          links = links;
                          thread =
                              put_at k.thread cur
                                (record (apply_prio_inherit (k.thread cur) (k.thread c).priority) {
                                  ipc_sender = c;
                                  ipc_msg = m;
                                });
                          result_at =
                              put_at k.result_at res (record (k.result_at res) {
                                is_notif = false;
                                msg = m;
                                sender = c;
                              });
                        },
                      )
                  | none ↦ (
                    ok,
                    record k {
                      links = D.append k.links (recv_queue ep) cur;
                      thread = put_at k.thread cur (record (k.thread cur) {
                        ipc_sender = tid_invalid;
                        reason = blocked_ipc_or_notif;
                        waits_on_ep = ep;
                        waits_on = n;
                        notif_wait_mask = mask;
                        msg_outptr = 0;
                        sender_outptr = 0;
                        rn_result_outptr = res;
                        block_status = 0;
                        state = state_blocked;
                      });
                      notif = put_at k.notif n (record o { waiter = some cur; wait_mask = mask });
                      events = kick_pending ∷ dequeue cur ∷ k.events;
                    },
                  )
                ])
      ]
