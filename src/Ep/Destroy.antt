-- ===== src/Ep/Destroy.antt =====
-- What ep_destroy_impl of kernel/ipc/ep.c does with those who wait.
use ulmk_microkernel.Base.{
  ℕ, zero, suc, ◌≤◌, ◌≡◌, refl, ◌∙◌, sym, ap, subst, Bool, true, false, List, [], ◌∷◌, arith, ◌==◌,
  length, put_at, put_at_self, put_at_other, ok, einval, Bool-cases, ◌⊎◌, inl, inr, ==→eq,
}
use ulmk_microkernel.Dlist.{Dlist, mem, without, mem-without, nodes-off, linked-off}
use ulmk_microkernel.Notif.Object.{state_ready, blocked_none, kick_pending, heap_free}
use ulmk_microkernel.Ep.Object.{IpcThread, Ipc, send_queue, recv_queue, wake_blocked_on_destroy}
use ulmk_microkernel.Ep.Teardown.{wake_queue, ep_destroy}
use ulmk_microkernel.Ep.Outcomes.{List-cases, IsOpen, get_none, get_first}

-- The thread was told that the object is gone.
pub record IsCancelled (t : IpcThread) : Type 0 where
  pub state : t.state ≡ state_ready
  pub reason : t.reason ≡ blocked_none
  pub status : t.block_status ≡ einval

no_mem : (xs : List ℕ) → ((u : ℕ) → mem u xs ≡ false) → xs ≡ []
no_mem [] h = refl
no_mem (x ∷ xs) h = absurd (ground (arith, h x))

length-without : (t : ℕ) (xs : List ℕ) → length (without t xs) ≤ length xs
length-without t [] = omega arith
length-without t (x ∷ xs) = ground (arith, length-without t xs)

module _ (D : Dlist) where
  -- The state once the head `t` of a queue is taken off and woken.
  abbrev woken_head : Ipc D → ℕ → ℕ → Ipc D
  woken_head k q t =
      wake_blocked_on_destroy D (record k { links = D.node_init (D.remove k.links t) t }) t einval

  -- What one round of a loop does.
  record Round (k r : Ipc D) (t : ℕ) : Type 0 where
    nodes : (l : ℕ) → D.nodes r.links l ≡ without t (D.nodes k.links l)
    cancelled : IsCancelled (r.thread t)
    others : (u : ℕ) → (t == u) ≡ false → r.thread u ≡ k.thread u
    active : r.active ≡ k.active

  woken_head-Round :
      (k : Ipc D) (q t : ℕ) → mem t (D.nodes k.links q) ≡ true → Round k (woken_head k q t) t
  unfolding wake_blocked_on_destroy
  woken_head-Round k q t there =
      let off = D.node_init (D.remove k.links t) t in
      let unlinked : D.is_linked off t ≡ false = linked-off D k.links q t there t ∙ ground arith in
      let now = put_at_self k.thread t _ in
      record {
        nodes = λ l. rw unlinked (nodes-off D k.links q t there l);
        cancelled = record {
          state = ap (λ (v : IpcThread). v.state) now;
          reason = ap (λ (v : IpcThread). v.reason) now;
          status = ap (λ (v : IpcThread). v.block_status) now;
        };
        others = λ u other. put_at_other k.thread t u _ other;
        active = refl;
      }

  -- What a loop does: its queue is empty, its threads are woken, and no other list gains a thread.
  pub record Woken (k r : Ipc D) (q : ℕ) : Type 0 where
    pub empty : D.nodes r.links q ≡ []
    pub cancelled : (u : ℕ) → mem u (D.nodes k.links q) ≡ true → IsCancelled (r.thread u)
    pub stays : (u : ℕ) → IsCancelled (k.thread u) → IsCancelled (r.thread u)
    pub kept :
        (u l : ℕ)
        → mem u (D.nodes k.links l) ≡ true
        → (mem u (D.nodes r.links l) ≡ true) ⊎ IsCancelled (r.thread u)
    pub fewer : (l : ℕ) → length (D.nodes r.links l) ≤ length (D.nodes k.links l)
    pub nothing_new :
        (u l : ℕ) → mem u (D.nodes r.links l) ≡ true → mem u (D.nodes k.links l) ≡ true
    pub active : r.active ≡ k.active

  done-Woken : (k : Ipc D) (q : ℕ) → D.nodes k.links q ≡ [] → Woken k k q
  done-Woken k q none_left = record {
    empty = none_left;
    cancelled = λ u m. absurd (ground (arith, ap (mem u) none_left));
    stays = λ u c. c;
    kept = λ u l m. inl m;
    fewer = λ l. omega arith;
    nothing_new = λ u l m. m;
    active = refl;
  }

  -- A round, and then the rest of the loop.
  Round-Woken : (k mid r : Ipc D) (q t : ℕ) → Round k mid t → Woken mid r q → Woken k r q
  Round-Woken k mid r q t o w = record {
    empty = w.empty;
    cancelled = λ u m. elim (Bool-cases (t == u)) [
      | inl same ↦ subst (λ v. IsCancelled (r.thread v)) (==→eq t u same) (w.stays t o.cancelled)
      | inr other ↦ w.cancelled u (left u q other m)
    ];
    stays = λ u c. elim (Bool-cases (t == u)) [
      | inl same ↦ subst (λ v. IsCancelled (r.thread v)) (==→eq t u same) (w.stays t o.cancelled)
      | inr other ↦ w.stays u (subst IsCancelled (sym (o.others u other)) c)
    ];
    kept = λ u l m. elim (Bool-cases (t == u)) [
      | inl same ↦
          inr (subst (λ v. IsCancelled (r.thread v)) (==→eq t u same) (w.stays t o.cancelled))
      | inr other ↦ w.kept u l (left u l other m)
    ];
    fewer =
        λ l. omega (arith, w.fewer l, ap length (o.nodes l), length-without t (D.nodes k.links l));
    nothing_new = λ u l m.
        ground
          (arith, w.nothing_new u l m, ap (mem u) (o.nodes l), mem-without u t (D.nodes k.links l));
    active = w.active ∙ o.active;
  }
    where
      left :
          (u l : ℕ)
          → (t == u) ≡ false
          → mem u (D.nodes k.links l) ≡ true
          → mem u (D.nodes mid.links l) ≡ true
      left u l other m =
          ground (arith, m, ap (mem u) (o.nodes l), mem-without u t (D.nodes k.links l))

  wake_queue-Woken :
      (fuel : ℕ) (k : Ipc D) (q : ℕ)
      → length (D.nodes k.links q) ≤ fuel
      → Woken k (wake_queue D fuel k q) q
  unfolding wake_queue
  wake_queue-Woken zero k q h = elim (List-cases (D.nodes k.links q)) [
    | inl none_left ↦ done-Woken k q none_left
    | inr (t, rest, e) ↦ absurd (omega (arith, ap length e))
  ]
  wake_queue-Woken (suc fuel) k q h = elim (List-cases (D.nodes k.links q)) [
    | inl none_left ↦ rw (wake_queue, get_none D k.links q none_left) (done-Woken k q none_left)
    | inr (t, rest, e) ↦
        let there : mem t (D.nodes k.links q) ≡ true = ground (arith, ap (mem t) e) in
        let first = get_first D k.links q t rest e in
        let o = woken_head-Round k q t there in
        let shorter : length (D.nodes (woken_head k q t).links q) ≤ fuel = ground (
          arith,
          ap length (o.nodes q),
          ap (λ xs. length (without t xs)) e,
          length-without t rest,
          ap length e,
          h,
        ) in
        rw (wake_queue, first, first)
          (Round-Woken k (woken_head k q t) _ q t o
            (wake_queue-Woken fuel (woken_head k q t) q shorter))
  ]

  -- What ep_destroy_impl leaves: an endpoint that nobody can use and on which nobody waits.
  pub record Destroyed (k r : Ipc D) (ep : ℕ) : Type 0 where
    pub closed : r.active ep ≡ false
    pub no_sender : D.nodes r.links (send_queue ep) ≡ []
    pub no_receiver : D.nodes r.links (recv_queue ep) ≡ []
    pub senders :
        (u : ℕ) → mem u (D.nodes k.links (send_queue ep)) ≡ true → IsCancelled (r.thread u)
    pub receivers :
        (u : ℕ) → mem u (D.nodes k.links (recv_queue ep)) ≡ true → IsCancelled (r.thread u)

-- With a round for each thread that waits, ep_destroy_impl of an open endpoint returns ULMK_OK, its
-- loops having emptied both queues: every thread that waited to send or to receive is ready, blocked
-- on nothing and told ULMK_EINVAL, and the endpoint is not active.
pub destroy_refines :
    (D : Dlist) (fuel : ℕ) (k : Ipc D) (ep : ℕ)
    → IsOpen D k ep
    → length (D.nodes k.links (send_queue ep)) ≤ fuel
    → length (D.nodes k.links (recv_queue ep)) ≤ fuel
    → ((ep_destroy D fuel k ep).0 ≡ ok) × Destroyed D k (ep_destroy D fuel k ep).1 ep
unfolding ep_destroy
destroy_refines D fuel k ep (valid, live) senders receivers =
    let dead = record k { active = put_at k.active ep false } in
    let one = wake_queue-Woken D fuel dead (send_queue ep) senders in
    let mid = wake_queue D fuel dead (send_queue ep) in
    let two =
      wake_queue-Woken D fuel mid (recv_queue ep)
        (omega (arith, one.fewer (recv_queue ep), receivers)) in
    let r = wake_queue D fuel mid (recv_queue ep) in
    let final = record r { events = kick_pending ∷ heap_free ep ∷ r.events } in
    let done : Destroyed D k final ep = record {
      closed =
          ap (λ (f : ℕ → Bool). f ep) (two.active ∙ one.active) ∙ put_at_self k.active ep false;
      no_sender = no_mem _ (λ u. ground (
        arith,
        two.nothing_new u (send_queue ep),
        ap (mem u) one.empty,
        Bool-cases (mem u (D.nodes r.links (send_queue ep))),
      ));
      no_receiver = two.empty;
      senders = λ u m. two.stays u (one.cancelled u m);
      receivers = λ u m. elim (one.kept u (recv_queue ep) m) [
        | inl still ↦ two.cancelled u still
        | inr told ↦ two.stays u told
      ];
    } in
    rw (ep_destroy, valid, live) (refl, done)
