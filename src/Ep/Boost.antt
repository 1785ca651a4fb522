-- ===== src/Ep/Boost.antt =====
-- Priority inheritance in kernel/ipc/ep.c, when a server receives a second request before it replies
-- to the first.
use ulmk_microkernel.Base.{
  ℕ, ◌<◌, ◌≡◌, refl, ◌∙◌, ap, Bool, true, false, some, [], ◌∷◌, arith, ◌==◌, if◌then◌else◌, ltb,
  put_at, put_at_self, put_at_other, ok, Bool-cases, inl, inr,
}
use ulmk_microkernel.Dlist.{Dlist, mem, without, nodes-off}
use ulmk_microkernel.Ep.Object.{IpcThread, Ipc, send_queue, blocked_ipc_call, state_dead}
use ulmk_microkernel.Ep.Calls.{take_request, ep_recv, unboosted, answer, ep_reply}
use ulmk_microkernel.Ep.Outcomes.{IsOpen, recv-takes, IsCaller, reply-answers}

-- A caller that waits, and is not the server.
pub record IsClient (D : Dlist) (k : Ipc D) (b a : ℕ) : Type 0 where
  pub caller : IsCaller D k a
  pub other : (b == a) ≡ false

module _ (D : Dlist) where
  -- What taking a request does to the server's priorities, and that others keep theirs.
  take-boosts :
      (k : Ipc D) (b a : ℕ) (links : D.Links) (msg sender : ℕ)
      → let r = take_request D k b a links msg sender in
        ((r.thread b).saved_prio ≡ (k.thread b).priority)
        × ((r.thread b).priority ≡ (
            if ltb (k.thread a).priority (k.thread b).priority
            then (k.thread a).priority
            else (k.thread b).priority))
        × ((u : ℕ) → (b == u) ≡ false → r.thread u ≡ k.thread u)
  unfolding take_request
  take-boosts k b a links msg sender =
      let own = put_at_self k.thread b _ in
      (
        ap (λ (t : IpcThread). t.saved_prio) own,
        ap (λ (t : IpcThread). t.priority) own,
        λ u other. put_at_other k.thread b u _ other,
      )

  -- A write to the caller, after the server has its saved priority again.
  unboosted_lem :
      (thread : ℕ → IpcThread) (b a : ℕ) (v : IpcThread)
      → (b == a) ≡ false
      → let r = put_at (unboosted D thread (some b)) a v in
        ((r b).saved_prio ≡ (thread b).saved_prio)
        × ((r b).priority ≡ (thread b).saved_prio)
        × ((u : ℕ) → (b == u) ≡ false → (a == u) ≡ false → r u ≡ thread u)
  unboosted_lem thread b a v other =
      let back : (a == b) ≡ false = ground arith in
      let below = put_at_other (unboosted D thread (some b)) a b v back in
      let own = put_at_self thread b _ in
      (
        ap (λ (t : IpcThread). t.saved_prio) below ∙ ap (λ (t : IpcThread). t.saved_prio) own,
        ap (λ (t : IpcThread). t.priority) below ∙ ap (λ (t : IpcThread). t.priority) own,
        λ u apart apart'.
            put_at_other (unboosted D thread (some b)) a u v apart'
            ∙ put_at_other thread b u _ apart,
      )

  -- What a reply does to them.
  answer-unboosts :
      (k : Ipc D) (b a reply : ℕ)
      → (b == a) ≡ false
      → let r = answer D k (some b) a reply in
        ((r.thread b).saved_prio ≡ (k.thread b).saved_prio)
        × ((r.thread b).priority ≡ (k.thread b).saved_prio)
        × ((u : ℕ) → (b == u) ≡ false → (a == u) ≡ false → r.thread u ≡ k.thread u)
        × (r.registered ≡ k.registered)
  unfolding answer
  answer-unboosts k b a reply other =
      let thread = unboosted D k.thread (some b) in
      elim (Bool-cases ((thread a).msg_outptr == 0)) [
        | inl bounce ↦
            rw bounce (let (x, y, z) = unboosted_lem k.thread b a _ other in (x, y, z, refl))
        | inr real ↦ rw real (let (x, y, z) = unboosted_lem k.thread b a _ other in (x, y, z, refl))
      ]

  IsClient-kept :
      (k r : Ipc D) (b a : ℕ)
      → r.thread a ≡ k.thread a
      → r.registered ≡ k.registered
      → IsClient D k b a
      → IsClient D r b a
  IsClient-kept k r b a same listed c = record {
    caller = record {
      real = c.caller.real;
      alive = ap (λ (t : IpcThread). t.state == state_dead) same ∙ c.caller.alive;
      listed = ap (λ (f : ℕ → Bool). f a) listed ∙ c.caller.listed;
      calls = ap (λ (t : IpcThread). t.reason == blocked_ipc_call) same ∙ c.caller.calls;
    };
    other = c.other;
  }

-- Two callers that wait on an open endpoint, the first of a lower priority number than the server,
-- and the buffers of the server.
pub record IsBacklog (D : Dlist) (k : Ipc D) (b c1 c2 ep mb reply : ℕ) : Type 0 where
  pub usable : IsOpen D k ep
  pub queued : D.nodes k.links (send_queue ep) ≡ c1 ∷ c2 ∷ []
  pub apart : (c1 == c2) ≡ false
  pub first : IsClient D k b c1
  pub second : IsClient D k b c2
  pub higher : (k.thread c1).priority < (k.thread b).priority
  pub real_mb : (mb == 0) ≡ false
  pub real_reply : (reply == 0) ≡ false

-- A server that receives from two callers that wait, the first of a lower priority number than its
-- own, and then replies to both, is left with the first caller's priority in place of its own.
pub nested_boost_stays :
    (D : Dlist) (k : Ipc D) (b c1 c2 ep mb sb reply : ℕ)
    → IsBacklog D k b c1 c2 ep mb reply
    → let r1 = ep_recv D k (some b) ep mb sb in
      let r2 = ep_recv D r1.1 (some b) ep mb sb in
      let r3 = ep_reply D r2.1 (some b) c2 reply in
      let r4 = ep_reply D r3.1 (some b) c1 reply in
      (r1.0 ≡ ok)
      × (r2.0 ≡ ok)
      × (r3.0 ≡ ok)
      × (r4.0 ≡ ok)
      × ((r4.1.thread b).priority ≡ (k.thread c1).priority)
unfolding take_request
nested_boost_stays D k b c1 c2 ep mb sb reply h =
    let e1 = recv-takes D k b c1 ep mb sb (c2 ∷ []) h.usable h.real_mb h.queued in
    let there : mem c1 (D.nodes k.links (send_queue ep)) ≡ true =
      ground (arith, ap (mem c1) h.queued) in
    let off1 = D.node_init (D.remove k.links c1) c1 in
    let left : D.nodes off1 (send_queue ep) ≡ c2 ∷ [] =
      nodes-off D k.links (send_queue ep) c1 there (send_queue ep)
      ∙ ap (without c1) h.queued
      ∙ ground (arith, h.apart) in
    let k1 = take_request D k b c1 off1 mb sb in
    let e2 = recv-takes D k1 b c2 ep mb sb [] h.usable h.real_mb left in
    let off2 = D.node_init (D.remove off1 c2) c2 in
    let k2 = take_request D k1 b c2 off2 mb sb in
    let (saved1, prio1, same1) = take-boosts D k b c1 off1 mb sb in
    let (saved2, prio2, same2) = take-boosts D k1 b c2 off2 mb sb in
    let on2 = same2 c2 h.second.other ∙ same1 c2 h.second.other in
    let client2 = IsClient-kept D k k2 b c2 on2 refl h.second in
    let e3 = reply-answers D k2 (some b) c2 reply client2.caller h.real_reply in
    let k3 = answer D k2 (some b) c2 reply in
    let (saved3, prio3, same3, listed3) = answer-unboosts D k2 b c2 reply h.second.other in
    let apart' : (c2 == c1) ≡ false = ground (arith, h.apart) in
    let on1 = same3 c1 h.first.other apart' ∙ same2 c1 h.first.other ∙ same1 c1 h.first.other in
    let client1 = IsClient-kept D k k3 b c1 on1 listed3 h.first in
    let e4 = reply-answers D k3 (some b) c1 reply client1.caller h.real_reply in
    let (saved4, prio4, same4, listed4) = answer-unboosts D k3 b c1 reply h.first.other in
    let boosted : (k1.thread b).priority ≡ (k.thread c1).priority =
      prio1 ∙ ground (arith, h.higher) in
    let final = prio4 ∙ saved3 ∙ saved2 ∙ boosted in
    let at2 = ap (λ (r : ℕ × Ipc D). ep_recv D r.1 (some b) ep mb sb) e1 ∙ e2 in
    let at3 = ap (λ (r : ℕ × Ipc D). ep_reply D r.1 (some b) c2 reply) at2 ∙ e3 in
    let at4 = ap (λ (r : ℕ × Ipc D). ep_reply D r.1 (some b) c1 reply) at3 ∙ e4 in
    let code : ℕ × Ipc D → ℕ = λ r. r.0 in
    (
      ap code e1,
      ap code at2,
      ap code at3,
      ap code at4,
      ap (λ (r : ℕ × Ipc D). (r.1.thread b).priority) at4 ∙ final,
    )
