-- ===== src/Ep/Outcomes.antt =====
-- What the calls of kernel/ipc/ep.c do, each on the branch that a rendezvous takes.
use mathlib.Core.Option
use ulmk_microkernel.Base.{
  ◌⊎◌, inl, inr, ℕ, ◌≡◌, refl, ◌∙◌, ap, true, false, Option, none, some, List, [], ◌∷◌, ◌==◌,
  put_at, ok,
}
use ulmk_microkernel.Dlist.{Dlist, head?}
use ulmk_microkernel.Notif.Object.{enqueue, dequeue, kick_pending, state_ready, state_blocked}
use ulmk_microkernel.Ep.Object.{
  IpcThread, Ipc, send_queue, recv_queue, blocked_ipc_call, blocked_ipc_recv, tid_invalid,
  state_dead, prepare_server_delivery,
}
use ulmk_microkernel.Ep.Calls.{call_rendezvous, ep_call, take_request, ep_recv, answer, ep_reply}

pub List-cases : (xs : List ℕ) → (xs ≡ []) ⊎ ((t : ℕ) × (rest : List ℕ) × (xs ≡ t ∷ rest))
List-cases [] = inl refl
List-cases (x ∷ xs) = inr (x, xs, refl)

module _ (D : Dlist) where
  -- An endpoint that may be used.
  abbrev pub IsOpen : Ipc D → ℕ → Type 0
  IsOpen k ep = ((ep == 0) ≡ false) × (k.active ep ≡ true)

  pub get_none : (links : D.Links) (q : ℕ) → D.nodes links q ≡ [] → D.get links q ≡ none
  get_none links q empty =
      D.get_lem links q ∙ ap (λ xs. Option.map (λ n. (n, D.remove links n)) (head? xs)) empty

  pub get_first :
      (links : D.Links) (q t : ℕ) (rest : List ℕ)
      → D.nodes links q ≡ t ∷ rest
      → D.get links q ≡ some (t, D.remove links t)
  get_first links q t rest there =
      D.get_lem links q ∙ ap (λ xs. Option.map (λ n. (n, D.remove links n)) (head? xs)) there

  -- What ep_call writes to the thread that makes it.
  abbrev pub staged : Ipc D → ℕ → ℕ → ℕ → ℕ → IpcThread
  staged k a ep msg = put_at k.thread a (record (k.thread a) {
    ipc_sender = tid_invalid;
    reason = blocked_ipc_call;
    waits_on_ep = ep;
    msg_outptr = msg;
    block_status = 0;
  })

  -- The caller waits on the send queue.
  abbrev pub waiting : Ipc D → ℕ → ℕ → ℕ → Ipc D
  waiting k a ep msg = record k {
    links = D.append k.links (send_queue ep) a;
    thread = put_at (staged k a ep msg) a (record (staged k a ep msg a) { state = state_blocked });
    events = kick_pending ∷ dequeue a ∷ k.events;
  }

  pub call-waits :
      (k : Ipc D) (a ep msg : ℕ)
      → IsOpen k ep
      → (msg == 0) ≡ false
      → D.nodes k.links (recv_queue ep) ≡ []
      → ep_call D k (some a) ep msg ≡ (ok, waiting k a ep msg)
  unfolding ep_call call_rendezvous
  call-waits k a ep msg (valid, live) real empty =
      let bare = get_none k.links (recv_queue ep) empty in
      rw (real, valid, live, call_rendezvous, bare) refl

  -- The caller hands its request to the server `b` that waits.
  abbrev pub given : Ipc D → ℕ → ℕ → ℕ → ℕ → Ipc D
  given k a b ep msg =
      let off = D.node_init (D.remove k.links b) b in
      prepare_server_delivery D (record k { links = off; thread = staged k a ep msg }) b a msg

  abbrev pub woken : Ipc D → ℕ → ℕ → ℕ → ℕ → ℕ → IpcThread
  woken k a b ep msg =
      let g = given k a b ep msg in put_at g.thread b (record (g.thread b) { state = state_ready })

  abbrev pub handed : Ipc D → ℕ → ℕ → ℕ → ℕ → Ipc D
  handed k a b ep msg =
      let g = given k a b ep msg in
      record g {
        thread =
            put_at (woken k a b ep msg) a (record (woken k a b ep msg a) { state = state_blocked });
        events = kick_pending ∷ enqueue b ∷ dequeue a ∷ g.events;
      }

  pub call-hands :
      (k : Ipc D) (a b ep msg : ℕ)
      → IsOpen k ep
      → (msg == 0) ≡ false
      → D.nodes k.links (recv_queue ep) ≡ b ∷ []
      → ep_call D k (some a) ep msg ≡ (ok, handed k a b ep msg)
  unfolding ep_call call_rendezvous
  call-hands k a b ep msg (valid, live) real there =
      let first = get_first k.links (recv_queue ep) b [] there in
      rw (real, valid, live, call_rendezvous, first, first) refl

  pub recv-takes :
      (k : Ipc D) (b a ep msg sender : ℕ) (rest : List ℕ)
      → IsOpen k ep
      → (msg == 0) ≡ false
      → D.nodes k.links (send_queue ep) ≡ a ∷ rest
      → ep_recv D k (some b) ep msg sender
        ≡ (ok, take_request D k b a (D.node_init (D.remove k.links a) a) msg sender)
  unfolding ep_recv
  recv-takes k b a ep msg sender rest (valid, live) real there =
      let first = get_first k.links (send_queue ep) a rest there in
      rw (real, valid, live, first, first) refl

  -- The server waits on the receive queue.
  abbrev pub receiving : Ipc D → ℕ → ℕ → ℕ → ℕ → Ipc D
  receiving k b ep msg sender = record k {
    links = D.append k.links (recv_queue ep) b;
    thread = put_at k.thread b (record (k.thread b) {
      msg_outptr = msg;
      sender_outptr = sender;
      reason = blocked_ipc_recv;
      waits_on_ep = ep;
      block_status = 0;
      state = state_blocked;
    });
    events = kick_pending ∷ dequeue b ∷ k.events;
  }

  pub recv-waits :
      (k : Ipc D) (b ep msg sender : ℕ)
      → IsOpen k ep
      → (msg == 0) ≡ false
      → D.nodes k.links (send_queue ep) ≡ []
      → ep_recv D k (some b) ep msg sender ≡ (ok, receiving k b ep msg sender)
  unfolding ep_recv
  recv-waits k b ep msg sender (valid, live) real empty =
      let bare = get_none k.links (send_queue ep) empty in rw (real, valid, live, bare) refl

  -- A thread that waits for a reply.
  pub record IsCaller (k : Ipc D) (a : ℕ) : Type 0 where
    pub real : (a == 0) ≡ false
    pub alive : ((k.thread a).state == state_dead) ≡ false
    pub listed : k.registered a ≡ true
    pub calls : ((k.thread a).reason == blocked_ipc_call) ≡ true

  pub reply-answers :
      (k : Ipc D) (cur : Option ℕ) (a reply : ℕ)
      → IsCaller k a
      → (reply == 0) ≡ false
      → ep_reply D k cur a reply ≡ (ok, answer D k cur a reply)
  unfolding ep_reply
  reply-answers k cur a reply c real = rw (ep_reply, real, c.real, c.alive, c.listed, c.calls) refl
