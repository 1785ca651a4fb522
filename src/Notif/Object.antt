-- ===== src/Notif/Object.antt =====
-- kernel/notif/notif.c: notification objects and the threads that wait on them, as the kernel (not
-- the unit test) compiles it. Objects and threads are addresses; g_ulmk_lock_ipc makes each call one
-- step. The calls of other parts of the kernel are recorded, the latest first.
use ulmk_microkernel.Base.{
  put_at, ℕ, Bool, true, false, not, ◌||◌, Option, none, some, List, ◌∷◌, ◌==◌, if◌then◌else◌,
  bit_and, bit_or, neg32, ok, einval, etimeout,
}
use ulmk_microkernel.Bits.{complement}

-- UL_THREAD_STATE_READY and UL_THREAD_STATE_BLOCKED
abbrev pub state_ready : ℕ
state_ready = 1

abbrev pub state_blocked : ℕ
state_blocked = 3

-- UL_BLOCKED_NONE, UL_BLOCKED_NOTIF and UL_BLOCKED_IPC_OR_NOTIF
abbrev pub blocked_none : ℕ
blocked_none = 0

abbrev pub blocked_notif : ℕ
blocked_notif = 4

abbrev pub blocked_ipc_or_notif : ℕ
blocked_ipc_or_notif = 5

-- ULMK_NOTIF_INVALID and ULMK_EP_INVALID
abbrev pub notif_invalid : ℕ
notif_invalid = 0

abbrev pub ep_invalid : ℕ
ep_invalid = 0

-- `ulmk_notif_obj_t`
pub record Notif : Type 0 where
  pub active : Bool
  pub bits : ℕ
  pub waiter : Option ℕ
  pub wait_mask : ℕ

-- The fields of `ulmk_thread_t` that notifications read and write; 0 is NULL.
pub record Thread : Type 0 where
  pub state : ℕ
  pub reason : ℕ
  pub waits_on : ℕ
  pub waits_on_ep : ℕ
  pub notif_wait_mask : ℕ
  pub notif_received : ℕ
  pub notif_bits_outptr : ℕ
  pub rn_result_outptr : ℕ
  pub block_status : ℕ
  pub syscall_wake_ret : ℕ
  pub syscall_wake_ret_valid : Bool
  pub timeout_cb : ℕ

-- Calls of other parts of the kernel, and writes to user memory.
pub data Event : Type 0 where
  enqueue : ℕ → Event
  dequeue : ℕ → Event
  recv_queue_remove : ℕ → Event
  timeout_disarm : ℕ → Event
  timeout_arm : ℕ → ℕ → Event
  kick_pending : Event
  store_bits : ℕ → ℕ → Event
  store_result : ℕ → ℕ → Event
  heap_free : ℕ → Event

pub record Kernel : Type 0 where
  pub notif : ℕ → Notif
  pub thread : ℕ → Thread
  pub events : List Event

-- ulmk_notif_by_id
abbrev pub notif_by_id : Kernel → ℕ → Option ℕ
notif_by_id k id = if id == 0 then none else (if (k.notif id).active then some id else none)

-- What notif_signal_impl does to the waiter, by what it waits for: ulmk_ep_recv_queue_remove leaves it
-- on no endpoint, and ulmk_timeout_disarm, which is called where there is a callback, leaves it none.
unfoldable pub wake_up : Thread → ℕ → Thread
wake_up w delivered =
    if w.reason == blocked_ipc_or_notif
    then record w {
      state = state_ready;
      reason = blocked_none;
      notif_received = delivered;
      waits_on = notif_invalid;
      waits_on_ep = ep_invalid;
      rn_result_outptr = 0;
      syscall_wake_ret = 1;
      syscall_wake_ret_valid = true;
      timeout_cb = 0;
    }
    else record w {
      state = state_ready;
      reason = blocked_none;
      notif_received = delivered;
      notif_bits_outptr = 0;
      timeout_cb = 0;
    }

-- The calls and writes that go with it.
unfoldable pub wake_events : Thread → ℕ → ℕ → List Event → List Event
wake_events w a delivered es =
    let told =
      if w.reason == blocked_ipc_or_notif
      then (if w.rn_result_outptr == 0
          then recv_queue_remove a ∷ es
          else store_result w.rn_result_outptr delivered ∷ recv_queue_remove a ∷ es)
      else (if w.notif_bits_outptr == 0
          then es
          else store_bits w.notif_bits_outptr delivered ∷ es) in
    let queued = enqueue a ∷ told in
    if w.timeout_cb == 0 then kick_pending ∷ queued else kick_pending ∷ timeout_disarm a ∷ queued

-- notif_signal_impl
unfoldable pub notif_signal : Kernel → ℕ → ℕ → ℕ × Kernel
notif_signal k id bits = elim (notif_by_id k id) [
  | none ↦ (neg32 einval, k)
  | some n ↦
      let all = bit_or (k.notif n).bits bits in
      let kept = record k { notif = put_at k.notif n (record (k.notif n) { bits = all }) } in
      elim (k.notif n).waiter [
        | none ↦ (ok, kept)
        | some a ↦
            let w = k.thread a in
            let delivered = bit_and all w.notif_wait_mask in
            if not (w.state == state_blocked) || delivered == 0 then (ok, kept) else (
              ok,
              record {
                notif = put_at k.notif n (record (k.notif n) {
                  bits = bit_and all (complement 32 delivered);
                  waiter = none;
                });
                thread = put_at k.thread a (wake_up w delivered);
                events = wake_events w a delivered k.events;
              },
            )
      ]
]

-- notif_wait_impl of the thread `cur`, for an `out` that may be NULL. Nothing changes the bits
-- between the two tests, so the second is the first again.
unfoldable pub notif_wait : Kernel → Option ℕ → ℕ → ℕ → ℕ → ℕ × Kernel
notif_wait k cur id mask out = elim (notif_by_id k id) [
  | none ↦ (neg32 einval, k)
  | some n ↦
      let o = k.notif n in
      let matched = bit_and o.bits mask in
      if out == 0
      then (neg32 einval, k)
      else (if not (matched == 0)
          then (
            ok,
            record k {
              notif = put_at k.notif n (record o { bits = bit_and o.bits (complement 32 matched) });
              events = store_bits out matched ∷ k.events;
            },
          )
          else elim cur [
            | none ↦ (neg32 einval, k)
            | some a ↦
                let blocked = record (k.thread a) {
                  reason = blocked_notif;
                  notif_wait_mask = mask;
                  waits_on = id;
                  notif_bits_outptr = out;
                  block_status = 0;
                  state = state_blocked;
                } in
                let again = bit_and o.bits mask in
                if not (again == 0)
                then (
                  ok,
                  record {
                    notif = put_at k.notif n (record o {
                      bits = bit_and o.bits (complement 32 again);
                      waiter = none;
                      wait_mask = mask;
                    });
                    thread = put_at k.thread a (record blocked {
                      state = state_ready;
                      reason = blocked_none;
                      waits_on = notif_invalid;
                    });
                    events = store_bits out again ∷ enqueue a ∷ dequeue a ∷ k.events;
                  },
                )
                else (
                  ok,
                  record {
                    notif = put_at k.notif n (record o { waiter = some a; wait_mask = mask });
                    thread = put_at k.thread a blocked;
                    events = dequeue a ∷ k.events;
                  },
                )
          ])
]

-- notif_poll_impl
unfoldable pub notif_poll : Kernel → ℕ → ℕ → ℕ × Kernel
notif_poll k id mask = elim (notif_by_id k id) [
  | none ↦ (0, k)
  | some n ↦
      let o = k.notif n in
      let matched = bit_and o.bits mask in
      (
        matched,
        record k {
          notif = put_at k.notif n (record o { bits = bit_and o.bits (complement 32 matched) });
        },
      )
]

-- notif_destroy_impl
unfoldable pub notif_destroy : Kernel → ℕ → ℕ × Kernel
notif_destroy k id = elim (notif_by_id k id) [
  | none ↦ (neg32 einval, k)
  | some n ↦
      let gone = put_at k.notif n (record (k.notif n) { waiter = none; active = false }) in
      elim (k.notif n).waiter [
        | none ↦ (ok, record k { notif = gone; events = heap_free n ∷ k.events })
        | some a ↦
            let w = k.thread a in
            let off =
              if w.reason == blocked_ipc_or_notif
              then recv_queue_remove a ∷ timeout_disarm a ∷ k.events
              else timeout_disarm a ∷ k.events in
            (
              ok,
              record {
                notif = gone;
                thread = put_at k.thread a (record w {
                  waits_on = notif_invalid;
                  waits_on_ep = ep_invalid;
                  block_status = einval;
                  reason = blocked_none;
                  state = state_ready;
                  timeout_cb = 0;
                });
                events = heap_free n ∷ enqueue a ∷ off;
              },
            )
      ]
]

-- The objects once the thread at `a`, should it be the waiter of the object at `n`, is not any more.
abbrev pub without_waiter : Kernel → ℕ → ℕ → ℕ → Notif
without_waiter k n a = elim (notif_by_id k n) [
  | none ↦ k.notif
  | some m ↦ elim (k.notif m).waiter [
    | none ↦ k.notif
    | some w ↦ if w == a then put_at k.notif m (record (k.notif m) { waiter = none }) else k.notif
  ]
]

-- notif_wait_timeout_cb for the thread at `a`
unfoldable pub wait_timeout_cb : Kernel → ℕ → Kernel
wait_timeout_cb k a =
    let th = k.thread a in
    if not (th.state == state_blocked) || not (th.reason == blocked_notif)
    then record k { events = kick_pending ∷ k.events }
    else record {
      notif = without_waiter k th.waits_on a;
      thread = put_at k.thread a (record th {
        waits_on = notif_invalid;
        block_status = etimeout;
        reason = blocked_none;
        state = state_ready;
      });
      events = kick_pending ∷ enqueue a ∷ k.events;
    }
