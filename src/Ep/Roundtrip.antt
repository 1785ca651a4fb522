-- ===== src/Ep/Roundtrip.antt =====
-- A request and its reply over an endpoint of kernel/ipc/ep.c, whichever of the two threads comes
-- first.
use ulmk_microkernel.Base.{
  ℕ, ◌≡◌, refl, ◌∙◌, sym, ap, subst, Bool, true, false, some, [], ◌∷◌, arith, ◌==◌, if◌then◌else◌,
  put_at, put_at_self, ok, eq→==,
}
use ulmk_microkernel.Dlist.{Dlist, IsDetached, mem, without, nodes-off}
use ulmk_microkernel.Notif.Object.{state_ready, blocked_none}
use ulmk_microkernel.Ep.Object.{
  IpcThread, Ipc, send_queue, recv_queue, blocked_ipc_call, state_dead, prepare_server_delivery,
}
use ulmk_microkernel.Ep.Calls.{ep_call, take_request, ep_recv, ep_reply}
use ulmk_microkernel.Ep.Steps.{
  Taken, waiting-AwaitsReply, waiting-other, take_request-Taken, answer-Answered, receiving-at,
  handed-Taken,
}
use ulmk_microkernel.Ep.Outcomes.{
  IsOpen, waiting, handed, receiving, call-waits, call-hands, recv-takes, recv-waits, IsCaller,
  reply-answers,
}

-- The caller `a` has its buffer at `ma`; the server `b` has `mb` for the message and `sb` for the
-- sender. `m` is the reply.
pub record Parties : Type 0 where
  pub a : ℕ
  pub b : ℕ
  pub ma : ℕ
  pub mb : ℕ
  pub sb : ℕ

-- `r2` is what the rendezvous gave and `r3` what the reply gave, from the state `k`.
pub record Exchanged (D : Dlist) (k : Ipc D) (ep m : ℕ) (p : Parties) (r1 r2 r3 : ℕ × Ipc D)
    : Type 0 where
  pub codes : (r1.0 ≡ ok) × (r2.0 ≡ ok) × (r3.0 ≡ ok)
  pub request : r2.1.msg_at p.mb ≡ k.msg_at p.ma
  pub sender : r2.1.tid_at p.sb ≡ p.a
  pub reply : r3.1.msg_at p.ma ≡ m
  pub awake : ((r3.1.thread p.a).state ≡ state_ready) × ((r3.1.thread p.a).reason ≡ blocked_none)
  pub priority : (r3.1.thread p.b).priority ≡ (k.thread p.b).priority
  pub sends : D.nodes r3.1.links (send_queue ep) ≡ []
  pub receives : D.nodes r3.1.links (recv_queue ep) ≡ []

-- An open endpoint on which nobody waits, and two threads with their buffers.
pub record CanExchange (D : Dlist) (k : Ipc D) (ep reply : ℕ) (p : Parties) : Type 0 where
  pub usable : IsOpen D k ep
  pub no_sender : D.nodes k.links (send_queue ep) ≡ []
  pub no_receiver : D.nodes k.links (recv_queue ep) ≡ []
  pub two : (p.a == p.b) ≡ false
  pub real_a : (p.a == 0) ≡ false
  pub alive_a : k.registered p.a ≡ true
  pub real_ma : (p.ma == 0) ≡ false
  pub real_mb : (p.mb == 0) ≡ false
  pub real_sb : (p.sb == 0) ≡ false
  pub real_reply : (reply == 0) ≡ false
  pub free_a : IsDetached D k.links p.a
  pub free_b : IsDetached D k.links p.b

-- The server writes its reply to a buffer of its own.
abbrev pub with_reply : (D : Dlist) → Ipc D → ℕ → ℕ → Ipc D
with_reply D k reply m = record k { msg_at = put_at k.msg_at reply m }

module _ (D : Dlist) (k : Ipc D) (ep reply m : ℕ) (p : Parties)
    (c : CanExchange D k ep reply p) where
  same_a : (p.a == p.a) ≡ true
  same_a = eq→== p.a p.a refl

  same_b : (p.b == p.b) ≡ true
  same_b = eq→== p.b p.b refl

  two_back : (p.b == p.a) ≡ false
  two_back = ground (arith, c.two)

  -- What is on a list after a thread was put on `q` and taken off again.
  back_off :
      (t q l : ℕ)
      → IsDetached D k.links t
      → D.nodes k.links q ≡ []
      → D.nodes k.links l ≡ []
      → (D.nodes (D.append k.links q t) q ≡ t ∷ [])
        × (D.nodes (D.node_init (D.remove (D.append k.links q t) t) t) l ≡ [])
  back_off t q l free empty_q empty_l =
      let put = D.nodes-append k.links q t free in
      let self_q = eq→== q q refl in
      let self_t = eq→== t t refl in
      let on : D.nodes (D.append k.links q t) q ≡ t ∷ [] = put q ∙ rw (self_q, empty_q) refl in
      let listed : mem t (D.nodes (D.append k.links q t) q) ≡ true = rw (on, self_t) refl in
      (
        on,
        nodes-off D (D.append k.links q t) q t listed l
            ∙ ap (without t) (put l ∙ rw empty_l refl)
            ∙ emptied,
      )
    where
      emptied : without t (if q == l then t ∷ [] else []) ≡ []
      emptied = ground (arith, eq→== t t refl)

  -- The exchange whose calls gave `r1` and `r2`.
  abbrev Ends : ℕ × Ipc D → ℕ × Ipc D → Type 0
  Ends r1 r2 =
      Exchanged D k ep m p r1 r2
        (ep_reply D (with_reply D r2.1 reply m) (some p.b) (r2.1.tid_at p.sb) reply)

  -- From a rendezvous that gave the request to the server, the reply ends the exchange.
  reply-Exchanged :
      (r1 r2 : ℕ × Ipc D)
      → r1.0 ≡ ok
      → r2.0 ≡ ok
      → Taken D k r2.1 p.a p.b p.ma p.mb p.sb
      → r2.1.registered ≡ k.registered
      → (D.nodes r2.1.links (send_queue ep) ≡ []) × (D.nodes r2.1.links (recv_queue ep) ≡ [])
      → Ends r1 r2
  reply-Exchanged r1 r2 ok1 ok2 t same empty =
      let after = with_reply D r2.1 reply m in
      let waits = t.caller in
      let caller : IsCaller D after p.a = record {
        real = c.real_a;
        alive = ap (λ q. q == state_dead) waits.state;
        listed = ap (λ (f : ℕ → Bool). f p.a) same ∙ c.alive_a;
        calls = ap (λ q. q == blocked_ipc_call) waits.reason;
      } in
      let replied =
        ap (λ q. ep_reply D after (some p.b) q reply) t.sender
        ∙ reply-answers D after (some p.b) p.a reply caller c.real_reply in
      let done = answer-Answered D after p.a p.b p.ma reply c.two c.real_ma waits in
      subst (λ r. Exchanged D k ep m p r1 r2 r) (sym replied)
        (record {
          codes = (ok1, ok2, refl);
          request = t.request;
          sender = t.sender;
          reply = done.reply_at ∙ put_at_self r2.1.msg_at reply m;
          awake = done.awake;
          priority = done.priority ∙ t.saved;
          sends = ap (λ s. D.nodes s (send_queue ep)) done.links ∙ empty.0;
          receives = ap (λ s. D.nodes s (recv_queue ep)) done.links ∙ empty.1;
        })

  -- The caller waits, and the server takes its request.
  call_first-Ends :
      let called = ep_call D k (some p.a) ep p.ma in
      Ends called (ep_recv D called.1 (some p.b) ep p.mb p.sb)
  unfolding take_request
  call_first-Ends =
      let w = waiting D k p.a ep p.ma in
      let e1 = call-waits D k p.a ep p.ma c.usable c.real_ma c.no_receiver in
      let back = λ (l : ℕ). back_off p.a (send_queue ep) l c.free_a c.no_sender in
      let off = D.node_init (D.remove w.links p.a) p.a in
      let e2 =
        ap (λ (r : ℕ × Ipc D). ep_recv D r.1 (some p.b) ep p.mb p.sb) e1
        ∙ recv-takes D w p.b p.a ep p.mb p.sb [] c.usable c.real_mb
            (back (send_queue ep) c.no_sender).0 in
      let t =
        take_request-Taken D w p.a p.b p.ma p.mb p.sb off c.two c.real_ma c.real_sb
          (waiting-AwaitsReply D k p.a ep p.ma) in
      let taken : Taken D k (take_request D w p.b p.a off p.mb p.sb) p.a p.b p.ma p.mb p.sb =
        record {
          request = t.request;
          sender = t.sender;
          saved =
              t.saved
              ∙ ap (λ (v : IpcThread). v.priority) (waiting-other D k p.a p.b ep p.ma c.two);
          caller = t.caller;
        } in
      let ends =
        reply-Exchanged (ok, w) (ok, take_request D w p.b p.a off p.mb p.sb) refl refl taken refl
          ((back (send_queue ep) c.no_sender).1, (back (recv_queue ep) c.no_receiver).1) in
      subst (Ends (ep_call D k (some p.a) ep p.ma)) (sym e2)
        (subst (λ r1. Ends r1 (ok, take_request D w p.b p.a off p.mb p.sb)) (sym e1) ends)

  -- The server waits, and the caller hands it its request.
  receive_first-Ends :
      let received = ep_recv D k (some p.b) ep p.mb p.sb in
      Ends received (ep_call D received.1 (some p.a) ep p.ma)
  unfolding prepare_server_delivery
  receive_first-Ends =
      let v = receiving D k p.b ep p.mb p.sb in
      let e1 = recv-waits D k p.b ep p.mb p.sb c.usable c.real_mb c.no_sender in
      let back = λ (l : ℕ). back_off p.b (recv_queue ep) l c.free_b c.no_receiver in
      let e2 =
        ap (λ (r : ℕ × Ipc D). ep_call D r.1 (some p.a) ep p.ma) e1
        ∙ call-hands D v p.a p.b ep p.ma c.usable c.real_ma
            (back (recv_queue ep) c.no_receiver).0 in
      let (at_mb, at_sb, own) = receiving-at D k p.b ep p.mb p.sb in
      let t = handed-Taken D v p.a p.b ep p.ma p.mb p.sb c.two c.real_mb c.real_sb at_mb at_sb in
      let taken : Taken D k (handed D v p.a p.b ep p.ma) p.a p.b p.ma p.mb p.sb = record {
        request = t.request;
        sender = t.sender;
        saved = t.saved ∙ own;
        caller = t.caller;
      } in
      let ends =
        reply-Exchanged (ok, v) (ok, handed D v p.a p.b ep p.ma) refl refl taken refl
          ((back (send_queue ep) c.no_sender).1, (back (recv_queue ep) c.no_receiver).1) in
      subst (Ends (ep_recv D k (some p.b) ep p.mb p.sb)) (sym e2)
        (subst (λ r1. Ends r1 (ok, handed D v p.a p.b ep p.ma)) (sym e1) ends)

-- On an open endpoint on which nobody waits, a registered caller calls and a server receives, in
-- either order, and the server replies to the sender that it was told. Each call returns ULMK_OK; the
-- server's buffer holds the request; the caller is ready, and its buffer holds the reply; the server
-- has the priority that it had before, and nobody waits on the endpoint.
pub call_roundtrip :
    (D : Dlist) (k : Ipc D) (ep reply m : ℕ) (p : Parties)
    → CanExchange D k ep reply p
    → let called = ep_call D k (some p.a) ep p.ma in
      let received = ep_recv D called.1 (some p.b) ep p.mb p.sb in
      let received' = ep_recv D k (some p.b) ep p.mb p.sb in
      let called' = ep_call D received'.1 (some p.a) ep p.ma in
      Exchanged D k ep m p called received
        (ep_reply D (with_reply D received.1 reply m) (some p.b) (received.1.tid_at p.sb) reply)
      × Exchanged D k ep m p received' called'
          (ep_reply D (with_reply D called'.1 reply m) (some p.b) (called'.1.tid_at p.sb) reply)
call_roundtrip D k ep reply m p c =
    (call_first-Ends D k ep reply m p c, receive_first-Ends D k ep reply m p c)
