-- ===== src/Ep/Sides/Compound.antt =====
-- The queues after the calls of kernel/ipc/ep.c that go through another one.
use ulmk_microkernel.Base.{
  ℕ, ◌≡◌, refl, ◌∙◌, sym, ap, subst, Bool, true, false, ◌||◌, some, ◌==◌, if◌then◌else◌, Bool-cases,
  Option-cases, inl, inr,
}
use ulmk_microkernel.Dlist.{Dlist}
use ulmk_microkernel.Ep.Object.{Ipc, send_queue, ep_by_id, tid_invalid}
use ulmk_microkernel.Ep.Outcomes.{List-cases, get_none, get_first}
use ulmk_microkernel.Ep.Calls.{
  call_rendezvous, ep_call_timeout, take_request, ep_reply, ep_reply_recv,
}
use ulmk_microkernel.Ep.Sides.{IsOneSided, head-IsOneSided}
use ulmk_microkernel.Ep.Sides.Calls.{
  rendezvous-IsOneSided, remove-IsOneSided, reply-links, recv_call-IsOneSided,
}

module _ (D : Dlist) where
  links_of :
      {s : D.Links} (b : Bool) (x y : Ipc D)
      → x.links ≡ s
      → y.links ≡ s
      → (if b then x else y).links ≡ s
  links_of true x y h g = h
  links_of false x y h g = g

  state_of :
      (b : Bool) (x y : Ipc D)
      → IsOneSided D x.links
      → IsOneSided D y.links
      → IsOneSided D (if b then x else y).links
  state_of true x y h g = h
  state_of false x y h g = g

  result_of :
      (b : Bool) (x y : ℕ × Ipc D)
      → IsOneSided D x.1.links
      → IsOneSided D y.1.links
      → IsOneSided D (if b then x else y).1.links
  result_of true x y h g = h
  result_of false x y h g = g

  module _ (k : Ipc D) (w : IsOneSided D k.links) where
    pub call_timeout-IsOneSided :
        (cur id msg ticks : ℕ) (armed : Bool)
        → D.is_linked k.links cur ≡ false
        → IsOneSided D (ep_call_timeout D k (some cur) id msg ticks armed).1.links
    unfolding ep_call_timeout
    call_timeout-IsOneSided cur id msg ticks armed fresh =
        elim (Bool-cases (msg == 0 || ticks == 0)) [
          | inl e ↦ rw e w
          | inr e ↦ elim (Option-cases (ep_by_id D k id)) [
            | inl closed ↦ rw (e, closed) w
            | inr (ep, usable) ↦
                let met = rendezvous-IsOneSided D k w cur ep msg fresh in
                let after = (call_rendezvous D k cur ep msg).1 in
                rw (e, usable)
                  (result_of armed _ _ met (state_of _ _ _ (remove-IsOneSided D after met cur) met))
          ]
        ]

    pub reply_recv-IsOneSided :
        (cur id tid reply next sender : ℕ)
        → D.is_linked k.links cur ≡ false
        → IsOneSided D (ep_reply_recv D k (some cur) id tid reply next sender).1.links
    unfolding ep_reply_recv take_request
    reply_recv-IsOneSided cur id tid reply next sender fresh =
        let replied : Ipc D =
          if tid == tid_invalid then k else (ep_reply D k (some cur) tid reply).1 in
        let same : replied.links ≡ k.links =
          links_of (tid == tid_invalid) k _ refl (reply-links D k w (some cur) tid reply) in
        let w' = subst (IsOneSided D) (sym same) w in
        let fresh' = ap (λ s. D.is_linked s cur) same ∙ fresh in
        elim (Bool-cases (next == 0)) [
          | inl e ↦ rw e w
          | inr e ↦ elim (Option-cases (ep_by_id D replied id)) [
            | inl closed ↦ rw (e, closed) w'
            | inr (ep, usable) ↦ elim (List-cases (D.nodes replied.links (send_queue ep))) [
              | inl empty ↦
                  rw (e, usable, get_none D replied.links (send_queue ep) empty)
                    (recv_call-IsOneSided D replied w' cur id next sender fresh')
              | inr (t, rest, there) ↦
                  let first = get_first D replied.links (send_queue ep) t rest there in
                  rw (e, usable, first, first)
                    (head-IsOneSided D replied.links (send_queue ep) t rest w' there)
            ]
          ]
        ]
