-- ===== src/Ep/Calls.antt =====
-- kernel/ipc/ep.c: the calls. `cur` is the thread that makes the call. A call is one step: where the
-- lock is dropped before the run queues are changed, the changes are recorded in their order. A queue
-- is tested for a thread by taking the head, which gives none just when the queue is empty.
use ulmk_microkernel.Base.{
  ℕ, Bool, not, ◌&&◌, ◌||◌, Option, none, some, List, ◌∷◌, ◌==◌, if◌then◌else◌, put_at, neg32, ok,
  einval,
}
use ulmk_microkernel.Dlist.{Dlist}
use ulmk_microkernel.Notif.Object.{
  Event, enqueue, dequeue, timeout_arm, timeout_disarm, kick_pending, state_ready, state_blocked,
  blocked_none, ep_invalid,
}
use ulmk_microkernel.Ep.Object.{
  IpcThread, Ipc, send_queue, recv_queue, blocked_ipc_call, blocked_ipc_recv, tid_invalid,
  apply_prio_inherit, ep_by_id, thread_by_tid, ipc_pop_head, caller_request,
  prepare_server_delivery, recv_queue_remove,
}

module _ (D : Dlist) where
  -- The rendezvous of ep_call_impl and ep_call_timeout_impl: the server that was woken, if any.
  unfoldable pub call_rendezvous : Ipc D → ℕ → ℕ → ℕ → Option ℕ × Ipc D
  unfolding prepare_server_delivery
  call_rendezvous k cur ep msg =
      let staged = put_at k.thread cur (record (k.thread cur) {
        ipc_sender = tid_invalid;
        reason = blocked_ipc_call;
        waits_on_ep = ep;
        msg_outptr = msg;
        block_status = 0;
      }) in
      let (srv, links) = ipc_pop_head D k.links (recv_queue ep) in
      elim srv [
        | none ↦ (
          none,
          record k {
            links = D.append k.links (send_queue ep) cur;
            thread = put_at staged cur (record (staged cur) { state = state_blocked });
          },
        )
        | some s ↦
            let given =
              prepare_server_delivery D (record k { links = links; thread = staged }) s cur msg in
            let woken = put_at given.thread s (record (given.thread s) { state = state_ready }) in
            (
              some s,
              record given {
                thread = put_at woken cur (record (woken cur) { state = state_blocked });
              },
            )
      ]

  -- What follows on the run queues.
  abbrev pub wake_server : Option ℕ → List Event → List Event
  wake_server none es = es
  wake_server (some s) es = enqueue s ∷ es

  unfoldable pub ep_call : Ipc D → Option ℕ → ℕ → ℕ → ℕ × Ipc D
  unfolding call_rendezvous
  ep_call k none id msg = (neg32 einval, k)
  ep_call k (some cur) id msg = if msg == 0 then (neg32 einval, k) else elim (ep_by_id D k id) [
    | none ↦ (neg32 einval, k)
    | some ep ↦
        let (srv, after) = call_rendezvous k cur ep msg in
        (ok, record after { events = kick_pending ∷ wake_server srv (dequeue cur ∷ after.events) })
  ]

  -- ep_call_timeout_impl for a time of `ticks` ticks; `armed` is whether ulmk_timeout_arm succeeds.
  unfoldable pub ep_call_timeout : Ipc D → Option ℕ → ℕ → ℕ → ℕ → Bool → ℕ × Ipc D
  unfolding call_rendezvous recv_queue_remove
  ep_call_timeout k none id msg ticks armed = (neg32 einval, k)
  ep_call_timeout k (some cur) id msg ticks armed =
      if msg == 0 || ticks == 0 then (neg32 einval, k) else elim (ep_by_id D k id) [
        | none ↦ (neg32 einval, k)
        | some ep ↦
            let (srv, after) = call_rendezvous k cur ep msg in
            let th = after.thread cur in
            let queued =
              th.state == state_blocked
              && th.reason == blocked_ipc_call
              && D.is_linked after.links cur in
            let off = recv_queue_remove D after cur in
            let given_up =
              if queued
              then record off {
                thread = put_at off.thread cur (record (off.thread cur) {
                  reason = blocked_none;
                  msg_outptr = 0;
                  state = state_ready;
                });
                events = enqueue cur ∷ off.events;
              }
              else after in
            if armed
            then (
              ok,
              record after {
                events =
                    kick_pending
                    ∷ wake_server srv (dequeue cur ∷ timeout_arm cur ticks ∷ after.events);
              },
            )
            else (
              neg32 einval,
              record given_up {
                events = kick_pending ∷ wake_server srv (dequeue cur ∷ given_up.events);
              },
            )
      ]

  -- The server takes the request of a caller that waits: the message goes to `msg`, the sender to
  -- `sender` unless that is NULL.
  unfoldable pub take_request : Ipc D → ℕ → ℕ → D.Links → ℕ → ℕ → Ipc D
  take_request k cur caller links msg sender = record k {
    links = links;
    thread =
        put_at k.thread cur (record (apply_prio_inherit (k.thread cur) (k.thread caller).priority) {
          ipc_sender = caller;
        });
    msg_at = put_at k.msg_at msg (caller_request D k caller);
    tid_at = if sender == 0 then k.tid_at else put_at k.tid_at sender caller;
  }

  unfoldable pub ep_recv : Ipc D → Option ℕ → ℕ → ℕ → ℕ → ℕ × Ipc D
  unfolding take_request
  ep_recv k none id msg sender = (neg32 einval, k)
  ep_recv k (some cur) id msg sender =
      if msg == 0 then (neg32 einval, k) else elim (ep_by_id D k id) [
        | none ↦ (neg32 einval, k)
        | some ep ↦
            let (caller, links) = ipc_pop_head D k.links (send_queue ep) in
            elim caller [
              | some c ↦ (ok, take_request k cur c links msg sender)
              | none ↦ (
                ok,
                record k {
                  links = D.append k.links (recv_queue ep) cur;
                  thread = put_at k.thread cur (record (k.thread cur) {
                    msg_outptr = msg;
                    sender_outptr = sender;
                    reason = blocked_ipc_recv;
                    waits_on_ep = ep;
                    block_status = 0;
                    state = state_blocked;
                  });
                  events = kick_pending ∷ dequeue cur ∷ k.events;
                },
              )
            ]
      ]

  -- ep_reply_impl: `cur` may be none.
  abbrev pub unboosted : (ℕ → IpcThread) → Option ℕ → ℕ → IpcThread
  unboosted thread none = thread
  unboosted thread (some cur) =
      put_at thread cur (record (thread cur) { priority = (thread cur).saved_prio })

  -- The caller is ready, with the reply in its buffer.
  unfoldable pub answer : Ipc D → Option ℕ → ℕ → ℕ → Ipc D
  answer k cur caller reply =
      let thread = unboosted k.thread cur in
      let c = thread caller in
      let awake = record c {
        state = state_ready;
        reason = blocked_none;
        waits_on_ep = ep_invalid;
      } in
      let m = k.msg_at reply in
      let told = kick_pending ∷ enqueue caller ∷ timeout_disarm caller ∷ k.events in
      if c.msg_outptr == 0
      then record k { thread = put_at thread caller (record awake { ipc_msg = m }); events = told }
      else record k {
        thread = put_at thread caller (record awake { msg_outptr = 0 });
        msg_at = put_at k.msg_at c.msg_outptr m;
        events = told;
      }

  unfoldable pub ep_reply : Ipc D → Option ℕ → ℕ → ℕ → ℕ × Ipc D
  unfolding answer
  ep_reply k cur tid reply =
      if reply == 0 then (neg32 einval, k) else elim (thread_by_tid D k tid) [
        | none ↦ (neg32 einval, k)
        | some caller ↦
            if not ((k.thread caller).reason == blocked_ipc_call)
            then (neg32 einval, k)
            else (ok, answer k cur caller reply)
      ]

  -- ep_reply_recv_impl: what ep_reply_impl returns is not looked at.
  unfoldable pub ep_reply_recv : Ipc D → Option ℕ → ℕ → ℕ → ℕ → ℕ → ℕ → ℕ × Ipc D
  unfolding ep_reply ep_recv take_request
  ep_reply_recv k cur id tid reply next next_sender =
      let replied = if tid == tid_invalid then k else (ep_reply k cur tid reply).1 in
      if next == 0 then (neg32 einval, k) else elim (ep_by_id D replied id) [
        | none ↦ (neg32 einval, replied)
        | some ep ↦ elim cur [
          | none ↦ (neg32 einval, replied)
          | some a ↦
              let (caller, links) = ipc_pop_head D replied.links (send_queue ep) in
              elim caller [
                | some c ↦ (ok, take_request replied a c links next next_sender)
                | none ↦ ep_recv replied (some a) id next next_sender
              ]
        ]
      ]

  -- ep_grant_impl
  unfoldable pub ep_grant : Ipc D → ℕ → ℕ → ℕ
  ep_grant k id tid = elim (ep_by_id D k id) [
    | none ↦ neg32 einval
    | some ep ↦ elim (thread_by_tid D k tid) [ none ↦ neg32 einval | some t ↦ ok ]
  ]
