-- ===== src/Ep/Runs.antt =====
-- Runs of the calls of kernel/ipc/ep.c in any order.
use ulmk_microkernel.Base.{ℕ, ◌≡◌, sym, subst, Bool, false, Option, some, []}
use ulmk_microkernel.Dlist.{Dlist}
use ulmk_microkernel.Ep.Object.{
  Ipc, send_queue, recv_queue, ep_init, call_timeout_cb, recv_queue_remove,
}
use ulmk_microkernel.Ep.Calls.{ep_call, ep_call_timeout, ep_recv, ep_reply, ep_reply_recv}
use ulmk_microkernel.Ep.Either.{ep_recv_or_notif}
use ulmk_microkernel.Ep.Teardown.{ep_destroy}
use ulmk_microkernel.Ep.Sides.{IsOneSided}
use ulmk_microkernel.Ep.Sides.Calls.{
  call-IsOneSided, recv_call-IsOneSided, reply-links, notif-IsOneSided, timeout-IsOneSided,
  remove-IsOneSided,
}
use ulmk_microkernel.Ep.Sides.Compound.{call_timeout-IsOneSided, reply_recv-IsOneSided}
use ulmk_microkernel.Ep.Sides.Lifetime.{destroy-IsOneSided, init-IsOneSided}

module _ (D : Dlist) where
  -- A call by a thread that is on no queue, as a running thread is, the callback of a time limit, the
  -- removal of a thread from its queue by another part of the kernel, the creation of an endpoint on
  -- which nobody waits, or anything that leaves the queues alone.
  pub data Step (k : Ipc D) : Ipc D → Type 0 where
    call :
        (cur id msg : ℕ)
        → D.is_linked k.links cur ≡ false
        → Step k (ep_call D k (some cur) id msg).1
    call_timeout :
        (cur id msg ticks : ℕ) (armed : Bool)
        → D.is_linked k.links cur ≡ false
        → Step k (ep_call_timeout D k (some cur) id msg ticks armed).1
    recv :
        (cur id msg sender : ℕ)
        → D.is_linked k.links cur ≡ false
        → Step k (ep_recv D k (some cur) id msg sender).1
    reply : (cur : Option ℕ) (tid message : ℕ) → Step k (ep_reply D k cur tid message).1
    reply_recv :
        (cur id tid message next sender : ℕ)
        → D.is_linked k.links cur ≡ false
        → Step k (ep_reply_recv D k (some cur) id tid message next sender).1
    recv_or_notif :
        (cur id n mask res : ℕ)
        → D.is_linked k.links cur ≡ false
        → Step k (ep_recv_or_notif D k (some cur) id n mask res).1
    destroy : (fuel id : ℕ) → Step k (ep_destroy D fuel k id).1
    expire : (t : ℕ) → Step k (call_timeout_cb D k t)
    remove : (t : ℕ) → Step k (recv_queue_remove D k t)
    create :
        (ep : ℕ)
        → D.nodes k.links (send_queue ep) ≡ []
        → D.nodes k.links (recv_queue ep) ≡ []
        → Step k (ep_init D k ep)
    elsewhere : (k' : Ipc D) → k'.links ≡ k.links → Step k k'

  pub data Steps (k : Ipc D) : Ipc D → Type 0 where
    done : Steps k k
    more : {m k' : Ipc D} → Steps k m → Step m k' → Steps k k'

  Step-IsOneSided : {k k' : Ipc D} → Step k k' → IsOneSided D k.links → IsOneSided D k'.links
  Step-IsOneSided (call cur id msg fresh) w = call-IsOneSided D _ w cur id msg fresh
  Step-IsOneSided (call_timeout cur id msg ticks armed fresh) w =
      call_timeout-IsOneSided D _ w cur id msg ticks armed fresh
  Step-IsOneSided (recv cur id msg sender fresh) w =
      recv_call-IsOneSided D _ w cur id msg sender fresh
  Step-IsOneSided (reply cur tid message) w =
      subst (IsOneSided D) (sym (reply-links D _ w cur tid message)) w
  Step-IsOneSided (reply_recv cur id tid message next sender fresh) w =
      reply_recv-IsOneSided D _ w cur id tid message next sender fresh
  Step-IsOneSided (recv_or_notif cur id n mask res fresh) w =
      notif-IsOneSided D _ w cur id n mask res fresh
  Step-IsOneSided (destroy fuel id) w = destroy-IsOneSided D fuel _ id w
  Step-IsOneSided (expire t) w = timeout-IsOneSided D _ w t
  Step-IsOneSided (remove t) w = remove-IsOneSided D _ w t
  Step-IsOneSided (create ep no_send no_recv) w = init-IsOneSided D _ ep w no_send no_recv
  Step-IsOneSided (elsewhere k' same) w = subst (IsOneSided D) (sym same) w

-- From queues of which no endpoint has both in use and every linked thread is on one, each run of the
-- calls in any order leads to such queues: no endpoint has a thread that waits to send and a thread
-- that waits to receive. A thread that makes a call which may queue it is on no queue then, endpoints
-- are made with empty queues, and the other steps leave the queues alone.
pub Steps-IsOneSided :
    (D : Dlist) (k k' : Ipc D) → Steps D k k' → IsOneSided D k.links → IsOneSided D k'.links
Steps-IsOneSided D k k' done w = w
Steps-IsOneSided D k k' (more {m = m} ss s) w = Step-IsOneSided D s (Steps-IsOneSided D k m ss w)
