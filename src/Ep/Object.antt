-- ===== src/Ep/Object.antt =====
-- kernel/ipc/ep.c: endpoints, the fields of threads that they use, and the helpers of the calls, as
-- the kernel (not the unit test) compiles them. Objects, threads and buffers are addresses, 0 is
-- NULL; a message is copied whole, so it is any number. The calls of the scheduler, the timers and
-- the heap are recorded, the latest first.
use ulmk_microkernel.Base.{
  ℕ, ◌+◌, ◌*◌, Bool, true, false, not, ◌||◌, Option, none, some, List, ◌∷◌, ◌==◌, if◌then◌else◌,
  ltb, put_at, etimeout,
}
use ulmk_microkernel.Dlist.{Dlist}
use ulmk_microkernel.Notif.Object.{
  Notif, Event, enqueue, timeout_disarm, kick_pending, state_ready, state_blocked, blocked_none,
  notif_invalid, ep_invalid,
}

-- UL_THREAD_STATE_DEAD
abbrev pub state_dead : ℕ
state_dead = 0

-- UL_BLOCKED_IPC_CALL and UL_BLOCKED_IPC_RECV
abbrev pub blocked_ipc_call : ℕ
blocked_ipc_call = 2

abbrev pub blocked_ipc_recv : ℕ
blocked_ipc_recv = 3

-- ULMK_TID_INVALID
abbrev pub tid_invalid : ℕ
tid_invalid = 0

-- The fields of `ulmk_thread_t`; `tid` is the thread's own address.
pub record IpcThread : Type 0 where
  pub state : ℕ
  pub priority : ℕ
  pub saved_prio : ℕ
  pub reason : ℕ
  pub waits_on_ep : ℕ
  pub waits_on : ℕ
  pub notif_wait_mask : ℕ
  pub ipc_msg : ℕ
  pub ipc_sender : ℕ
  pub msg_outptr : ℕ
  pub sender_outptr : ℕ
  pub rn_result_outptr : ℕ
  pub block_status : ℕ

-- `ulmk_recv_or_notif_result_t`
pub record RecvResult : Type 0 where
  pub is_notif : Bool
  pub msg : ℕ
  pub sender : ℕ
  pub notif_bits : ℕ

-- The endpoints, the threads, the notifications and the memory of the callers.
pub record Ipc (D : Dlist) : Type 0 where
  pub active : ℕ → Bool
  pub links : D.Links
  pub thread : ℕ → IpcThread
  pub registered : ℕ → Bool
  pub notif : ℕ → Notif
  pub msg_at : ℕ → ℕ
  pub tid_at : ℕ → ℕ
  pub result_at : ℕ → RecvResult
  pub events : List Event

-- `&ep->send_queue` and `&ep->recv_queue`
abbrev pub send_queue : ℕ → ℕ
send_queue ep = ep * 2

abbrev pub recv_queue : ℕ → ℕ
recv_queue ep = ep * 2 + 1

-- apply_prio_inherit of a server and the priority of its caller
abbrev pub apply_prio_inherit : IpcThread → ℕ → IpcThread
apply_prio_inherit server prio = record server {
  saved_prio = server.priority;
  priority = if ltb prio server.priority then prio else server.priority;
}

module _ (D : Dlist) where
  -- ulmk_ep_init
  unfoldable pub ep_init : Ipc D → ℕ → Ipc D
  ep_init k ep = record k {
    active = put_at k.active ep true;
    links = D.list_init (D.list_init k.links (send_queue ep)) (recv_queue ep);
  }

  -- ulmk_ep_by_id
  abbrev pub ep_by_id : Ipc D → ℕ → Option ℕ
  ep_by_id k id = if id == 0 then none else (if k.active id then some id else none)

  -- ulmk_thread_by_tid
  abbrev pub thread_by_tid : Ipc D → ℕ → Option ℕ
  thread_by_tid k tid =
      if tid == tid_invalid
      then none
      else (if (k.thread tid).state == state_dead
          then none
          else (if k.registered tid then some tid else none))

  -- The thread off the queue it is on, if any.
  abbrev pub off_queue : D.Links → ℕ → D.Links
  off_queue links t = if D.is_linked links t then D.node_init (D.remove links t) t else links

  unfoldable pub recv_queue_remove : Ipc D → ℕ → Ipc D
  recv_queue_remove k t = if (k.thread t).waits_on_ep == ep_invalid then k else record k {
    links = off_queue k.links t;
    thread = put_at k.thread t (record (k.thread t) { waits_on_ep = ep_invalid });
  }

  abbrev pub popped : Option (ℕ × D.Links) → D.Links → Option ℕ × D.Links
  popped none links = (none, links)
  popped (some (n, off)) links = (some n, D.node_init off n)

  -- ipc_pop_head
  abbrev pub ipc_pop_head : D.Links → ℕ → Option ℕ × D.Links
  ipc_pop_head links queue = popped (D.get links queue) links

  -- The notifications once the thread is the waiter of none that it waits on.
  abbrev pub without_waiter_of : (ℕ → Notif) → ℕ → ℕ → ℕ → Notif
  without_waiter_of notif n t =
      if n == notif_invalid || not (notif n).active then notif else elim (notif n).waiter [
        | none ↦ notif
        | some w ↦ if w == t then put_at notif n (record (notif n) { waiter = none }) else notif
      ]

  -- caller_request
  abbrev pub caller_request : Ipc D → ℕ → ℕ
  caller_request k caller =
      let c = k.thread caller in if c.msg_outptr == 0 then c.ipc_msg else k.msg_at c.msg_outptr

  -- prepare_server_delivery of the message at `msg`
  unfoldable pub prepare_server_delivery : Ipc D → ℕ → ℕ → ℕ → Ipc D
  prepare_server_delivery k server caller msg =
      let s = k.thread server in
      let m = k.msg_at msg in
      record k {
        thread = put_at k.thread server (record (apply_prio_inherit s (k.thread caller).priority) {
          ipc_sender = caller;
          reason = blocked_none;
          waits_on_ep = ep_invalid;
          waits_on = notif_invalid;
          ipc_msg = m;
          msg_outptr = 0;
          sender_outptr = 0;
          rn_result_outptr = 0;
        });
        notif = without_waiter_of k.notif s.waits_on server;
        msg_at = if s.msg_outptr == 0 then k.msg_at else put_at k.msg_at s.msg_outptr m;
        tid_at = if s.sender_outptr == 0 then k.tid_at else put_at k.tid_at s.sender_outptr caller;
        result_at =
            if s.rn_result_outptr == 0
            then k.result_at
            else put_at k.result_at s.rn_result_outptr
                (record { is_notif = false; msg = m; sender = caller; notif_bits = 0 });
      }

  unfoldable pub wake_blocked_on_destroy : Ipc D → ℕ → ℕ → Ipc D
  wake_blocked_on_destroy k t status =
      let th = k.thread t in
      record k {
        links = off_queue k.links t;
        thread = put_at k.thread t (record th {
          waits_on = notif_invalid;
          block_status = status;
          reason = blocked_none;
          waits_on_ep = ep_invalid;
          state = state_ready;
        });
        notif = without_waiter_of k.notif th.waits_on t;
        events = enqueue t ∷ timeout_disarm t ∷ k.events;
      }

  -- ep_call_timeout_cb
  unfoldable pub call_timeout_cb : Ipc D → ℕ → Ipc D
  unfolding recv_queue_remove
  call_timeout_cb k t =
      let th = k.thread t in
      let off = recv_queue_remove k t in
      if not (th.state == state_blocked) || not (th.reason == blocked_ipc_call)
      then record k { events = kick_pending ∷ k.events }
      else record off {
        thread = put_at off.thread t (record (off.thread t) {
          block_status = etimeout;
          reason = blocked_none;
          state = state_ready;
        });
        events = kick_pending ∷ enqueue t ∷ off.events;
      }
