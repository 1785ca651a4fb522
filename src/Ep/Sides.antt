-- ===== src/Ep/Sides.antt =====
-- The two queues of an endpoint of kernel/ipc/ep.c, of which at most one is in use, and what puts a
-- thread on them and takes it off.
pub mod Calls
pub mod Compound
pub mod Lifetime
use ulmk_microkernel.Base.{
  ℕ, ◌≡◌, refl, ◌∙◌, sym, ap, true, false, ◌||◌, List, [], ◌∷◌, ◌++◌, arith, ◌==◌, if◌then◌else◌,
  Bool-cases, inl, inr, ==→eq, eq→==,
}
use ulmk_microkernel.Dlist.{
  Dlist, IsDetached, mem, null, without, mem-without, nodes-off, linked-off, mem-snoc,
}
use ulmk_microkernel.Ep.Object.{send_queue, recv_queue, off_queue}

module _ (D : Dlist) where
  -- No endpoint has both, and every thread that is linked is on a queue.
  pub record IsOneSided (s : D.Links) : Type 0 where
    pub sides :
        (ep : ℕ) → (null (D.nodes s (send_queue ep)) || null (D.nodes s (recv_queue ep))) ≡ true
    pub listed : (t : ℕ) → D.is_linked s t ≡ true → (q : ℕ) × (mem t (D.nodes s q) ≡ true)

  module _ (s : D.Links) (w : IsOneSided s) where
    unlinked-IsDetached : (t : ℕ) → D.is_linked s t ≡ false → IsDetached D s t
    unlinked-IsDetached t h l = elim (Bool-cases (mem t (D.nodes s l))) [
      | inl m ↦ absurd (ground (arith, D.linked_of_mem s l t m))
      | inr off ↦ off
    ]

    null-without : (t : ℕ) (xs : List ℕ) → null xs ≡ true → null (without t xs) ≡ true
    null-without t [] h = refl
    null-without t (x ∷ xs) h = absurd (ground arith)

    -- A thread that is taken off its queue.
    off-IsOneSided :
        (q t : ℕ) → mem t (D.nodes s q) ≡ true → IsOneSided (D.node_init (D.remove s t) t)
    off-IsOneSided q t there = record {
      sides = λ ep.
          let send = nodes-off D s q t there (send_queue ep) in
          let recv = nodes-off D s q t there (recv_queue ep) in
          rw (send, recv)
            (ground (
              arith,
              w.sides ep,
              null-without t (D.nodes s (send_queue ep)),
              null-without t (D.nodes s (recv_queue ep)),
            ));
      listed = λ u h.
          let l = linked-off D s q t there u in
          let (p, m) = w.listed u (ground (arith, h, l)) in
          (
            p,
            ground (
              arith,
              ap (mem u) (nodes-off D s q t there p),
              mem-without u t (D.nodes s p),
              m,
              h,
              l,
            ),
          );
    }

    -- A thread that is linked nowhere is put on the end of a queue whose other side is empty.
    put-IsOneSided :
        (q other t : ℕ)
        → D.is_linked s t ≡ false
        → ((ep : ℕ)
            → ((q == send_queue ep) ≡ true → other ≡ recv_queue ep)
              × ((q == recv_queue ep) ≡ true → other ≡ send_queue ep))
        → null (D.nodes s other) ≡ true
        → (q == other) ≡ false
        → IsOneSided (D.append s q t)
    put-IsOneSided q other t fresh opposite empty two =
        let detached = unlinked-IsDetached t fresh in
        let put = D.nodes-append s q t detached in
        record {
          sides = λ ep.
              let (to_recv, to_send) = opposite ep in
              let send = put (send_queue ep) in
              let recv = put (recv_queue ep) in
              elim (Bool-cases (q == send_queue ep)) [
                | inl at_send ↦
                    let e = to_recv at_send in
                    let away : (q == recv_queue ep) ≡ false = ap (λ o. q == o) (sym e) ∙ two in
                    let bare : null (D.nodes s (recv_queue ep)) ≡ true =
                      ap (λ o. null (D.nodes s o)) (sym e) ∙ empty in
                    rw (recv, away, bare) (ground arith)
                | inr no_send ↦ elim (Bool-cases (q == recv_queue ep)) [
                  | inl at_recv ↦
                      let e = to_send at_recv in
                      let bare : null (D.nodes s (send_queue ep)) ≡ true =
                        ap (λ o. null (D.nodes s o)) (sym e) ∙ empty in
                      rw (send, no_send, bare) refl
                  | inr no_recv ↦ rw (send, recv, no_send, no_recv) (w.sides ep)
                ]
              ];
          listed = λ u h. elim (Bool-cases (t == u)) [
            | inl own ↦
                let at_q = put q in
                let last = mem-snoc u t (D.nodes s q) in
                (q, rw (at_q, eq→== q q refl) (ground (arith, last, ==→eq t u own, eq→== u t)))
            | inr other_thread ↦
                let l = D.linked-append s q t detached u in
                let (p, m) = w.listed u (ground (arith, h, l, other_thread)) in
                let last = mem-snoc u t (D.nodes s p) in (p, rw (put p) (kept p u m last))
          ];
        }
      where
        kept :
            (p u : ℕ)
            → mem u (D.nodes s p) ≡ true
            → mem u (D.nodes s p ++ t ∷ []) ≡ (u == t || mem u (D.nodes s p))
            → mem u (if q == p then D.nodes s p ++ t ∷ [] else D.nodes s p) ≡ true
        kept p u m last = ground arith

module _ (D : Dlist) where
  -- A thread that is linked nowhere waits to send where nobody waits to receive, or the other way.
  pub send-IsOneSided :
      (s : D.Links) (ep t : ℕ)
      → IsOneSided D s
      → D.is_linked s t ≡ false
      → D.nodes s (recv_queue ep) ≡ []
      → IsOneSided D (D.append s (send_queue ep) t)
  send-IsOneSided s ep t w fresh empty =
      put-IsOneSided D s w (send_queue ep) (recv_queue ep) t fresh
        (λ e. (λ h. ground arith, λ h. ground arith)) (ap null empty) (ground arith)

  pub recv-IsOneSided :
      (s : D.Links) (ep t : ℕ)
      → IsOneSided D s
      → D.is_linked s t ≡ false
      → D.nodes s (send_queue ep) ≡ []
      → IsOneSided D (D.append s (recv_queue ep) t)
  recv-IsOneSided s ep t w fresh empty =
      put-IsOneSided D s w (recv_queue ep) (send_queue ep) t fresh
        (λ e. (λ h. ground arith, λ h. ground arith)) (ap null empty) (ground arith)

  pub head-IsOneSided :
      (s : D.Links) (q t : ℕ) (rest : List ℕ)
      → IsOneSided D s
      → D.nodes s q ≡ t ∷ rest
      → IsOneSided D (D.node_init (D.remove s t) t)
  head-IsOneSided s q t rest w e = off-IsOneSided D s w q t (ground (arith, ap (mem t) e))

  pub off_queue-IsOneSided : (s : D.Links) (t : ℕ) → IsOneSided D s → IsOneSided D (off_queue D s t)
  off_queue-IsOneSided s t w = elim (Bool-cases (D.is_linked s t)) [
    | inr off ↦ rw off w
    | inl on ↦ let (q, m) = w.listed t on in rw on (off-IsOneSided D s w q t m)
  ]
