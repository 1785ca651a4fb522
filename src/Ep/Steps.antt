-- ===== src/Ep/Steps.antt =====
-- What the calls of kernel/ipc/ep.c leave in the threads and in the buffers of two parties.
use ulmk_microkernel.Base.{
  ℕ, ◌≡◌, refl, ◌∙◌, sym, ap, subst, false, some, arith, ◌==◌, put_at, put_at_self, put_at_other,
}
use ulmk_microkernel.Dlist.{Dlist}
use ulmk_microkernel.Notif.Object.{state_ready, state_blocked, blocked_none}
use ulmk_microkernel.Ep.Object.{
  IpcThread, Ipc, blocked_ipc_call, prepare_server_delivery, caller_request,
}
use ulmk_microkernel.Ep.Calls.{take_request, unboosted, answer}
use ulmk_microkernel.Ep.Outcomes.{staged, waiting, given, woken, handed, receiving}

-- A caller whose buffer is at `ma` waits for a reply.
pub record AwaitsReply (t : IpcThread) (ma : ℕ) : Type 0 where
  pub outptr : t.msg_outptr ≡ ma
  pub reason : t.reason ≡ blocked_ipc_call
  pub state : t.state ≡ state_blocked

module _ (D : Dlist) where
  pub waiting-AwaitsReply :
      (k : Ipc D) (a ep ma : ℕ) → AwaitsReply ((waiting D k a ep ma).thread a) ma
  waiting-AwaitsReply k a ep ma =
      let first = put_at_self k.thread a _ in
      let last = put_at_self (staged D k a ep ma) a _ in
      record {
        outptr =
            ap (λ (t : IpcThread). t.msg_outptr) last ∙ ap (λ (t : IpcThread). t.msg_outptr) first;
        reason = ap (λ (t : IpcThread). t.reason) last ∙ ap (λ (t : IpcThread). t.reason) first;
        state = ap (λ (t : IpcThread). t.state) last;
      }

  pub waiting-other :
      (k : Ipc D) (a b ep ma : ℕ) → (a == b) ≡ false → (waiting D k a ep ma).thread b ≡ k.thread b
  waiting-other k a b ep ma two =
      put_at_other (staged D k a ep ma) a b _ two ∙ put_at_other k.thread a b _ two

  -- The request is delivered, and the server remembers its own priority.
  pub record Taken (k r : Ipc D) (a b ma mb sb : ℕ) : Type 0 where
    pub request : r.msg_at mb ≡ k.msg_at ma
    pub sender : r.tid_at sb ≡ a
    pub saved : (r.thread b).saved_prio ≡ (k.thread b).priority
    pub caller : AwaitsReply (r.thread a) ma

  pub take_request-Taken :
      (k : Ipc D) (a b ma mb sb : ℕ) (links : D.Links)
      → (a == b) ≡ false
      → (ma == 0) ≡ false
      → (sb == 0) ≡ false
      → AwaitsReply (k.thread a) ma
      → Taken k (take_request D k b a links mb sb) a b ma mb sb
  unfolding take_request
  take_request-Taken k a b ma mb sb links two real_ma real_sb c =
      let back : (b == a) ≡ false = ground arith in
      let buffer : caller_request D k a ≡ k.msg_at ma = rw (c.outptr, real_ma) refl in
      record {
        request = put_at_self k.msg_at mb _ ∙ buffer;
        sender = rw real_sb (put_at_self k.tid_at sb a);
        saved = ap (λ (t : IpcThread). t.saved_prio) (put_at_self k.thread b _);
        caller = subst (λ t. AwaitsReply t ma) (sym (put_at_other k.thread b a _ back)) c;
      }

  -- The caller is awake with the reply, and the server has its own priority again.
  pub record Answered (k r : Ipc D) (a b ma reply : ℕ) : Type 0 where
    pub reply_at : r.msg_at ma ≡ k.msg_at reply
    pub awake : ((r.thread a).state ≡ state_ready) × ((r.thread a).reason ≡ blocked_none)
    pub priority : (r.thread b).priority ≡ (k.thread b).saved_prio
    pub links : r.links ≡ k.links

  pub answer-Answered :
      (k : Ipc D) (a b ma reply : ℕ)
      → (a == b) ≡ false
      → (ma == 0) ≡ false
      → AwaitsReply (k.thread a) ma
      → Answered k (answer D k (some b) a reply) a b ma reply
  unfolding answer
  answer-Answered k a b ma reply two real_ma c =
      let back : (b == a) ≡ false = ground arith in
      let thread = unboosted D k.thread (some b) in
      let same : thread a ≡ k.thread a = put_at_other k.thread b a _ back in
      let at_ma : (thread a).msg_outptr ≡ ma =
        ap (λ (t : IpcThread). t.msg_outptr) same ∙ c.outptr in
      let nonzero : ((thread a).msg_outptr == 0) ≡ false = ap (λ q. q == 0) at_ma ∙ real_ma in
      let ready = put_at_self thread a _ in
      rw nonzero (record {
        reply_at =
            ap (λ q. put_at k.msg_at q (k.msg_at reply) ma) at_ma ∙ put_at_self k.msg_at ma _;
        awake = (ap (λ (t : IpcThread). t.state) ready, ap (λ (t : IpcThread). t.reason) ready);
        priority =
            ap (λ (t : IpcThread). t.priority) (put_at_other thread a b _ two)
            ∙ ap (λ (t : IpcThread). t.priority) (put_at_self k.thread b _);
        links = refl;
      })

  pub receiving-at :
      (k : Ipc D) (b ep mb sb : ℕ)
      → let t = (receiving D k b ep mb sb).thread b in
        (t.msg_outptr ≡ mb) × (t.sender_outptr ≡ sb) × (t.priority ≡ (k.thread b).priority)
  receiving-at k b ep mb sb =
      let last = put_at_self k.thread b _ in
      (
        ap (λ (t : IpcThread). t.msg_outptr) last,
        ap (λ (t : IpcThread). t.sender_outptr) last,
        ap (λ (t : IpcThread). t.priority) last,
      )

  pub handed-Taken :
      (k : Ipc D) (a b ep ma mb sb : ℕ)
      → (a == b) ≡ false
      → (mb == 0) ≡ false
      → (sb == 0) ≡ false
      → (k.thread b).msg_outptr ≡ mb
      → (k.thread b).sender_outptr ≡ sb
      → Taken k (handed D k a b ep ma) a b ma mb sb
  unfolding prepare_server_delivery
  handed-Taken k a b ep ma mb sb two real_mb real_sb out_mb out_sb =
      let same : staged D k a ep ma b ≡ k.thread b = put_at_other k.thread a b _ two in
      let back : (b == a) ≡ false = ground arith in
      let w = woken D k a b ep ma in
      let g = (given D k a b ep ma).thread in
      let saved_of : IpcThread → ℕ = λ t. t.saved_prio in
      let first = put_at_self k.thread a _ in
      let untouched : (f : IpcThread → ℕ)
          → ((t : IpcThread) (st : ℕ) → f (record t { state = st }) ≡ f t)
          → f ((handed D k a b ep ma).thread a) ≡ f (staged D k a ep ma a) =
        λ f keeps.
          ap f (put_at_self w a _)
          ∙ keeps (w a) state_blocked
          ∙ ap f (put_at_other g b a _ back)
          ∙ ap f (put_at_other (staged D k a ep ma) b a _ back) in
      let at_mb : (staged D k a ep ma b).msg_outptr ≡ mb =
        ap (λ (t : IpcThread). t.msg_outptr) same ∙ out_mb in
      let at_sb : (staged D k a ep ma b).sender_outptr ≡ sb =
        ap (λ (t : IpcThread). t.sender_outptr) same ∙ out_sb in
      let msg_real : ((staged D k a ep ma b).msg_outptr == 0) ≡ false =
        ap (λ q. q == 0) at_mb ∙ real_mb in
      let sender_real : ((staged D k a ep ma b).sender_outptr == 0) ≡ false =
        ap (λ q. q == 0) at_sb ∙ real_sb in
      record {
        request =
            rw msg_real
              (ap (λ q. put_at k.msg_at q (k.msg_at ma) mb) at_mb ∙ put_at_self k.msg_at mb _);
        sender =
            rw sender_real (ap (λ q. put_at k.tid_at q a sb) at_sb ∙ put_at_self k.tid_at sb a);
        saved =
            ap saved_of (put_at_other w a b _ two)
            ∙ ap saved_of (put_at_self g b _)
            ∙ ap saved_of (put_at_self (staged D k a ep ma) b _)
            ∙ ap (λ (t : IpcThread). t.priority) same;
        caller = record {
          outptr =
              untouched (λ t. t.msg_outptr) (λ t st. refl)
              ∙ ap (λ (t : IpcThread). t.msg_outptr) first;
          reason =
              untouched (λ t. t.reason) (λ t st. refl) ∙ ap (λ (t : IpcThread). t.reason) first;
          state = ap (λ (t : IpcThread). t.state) (put_at_self w a _);
        };
      }
