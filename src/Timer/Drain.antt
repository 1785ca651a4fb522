-- ===== src/Timer/Drain.antt =====
-- expire_list: the drain of the list of the expired, with its callbacks.

use ulmk_microkernel.Base.{
  ℕ, zero, suc, ◌≤◌, ◌≡◌, refl, ◌∙◌, true, false, not, ◌&&◌, arith, List, [], ◌∷◌, ◌==◌, ==→eq,
  Bool-cases, inl, inr, length, some, none,
}
use ulmk_microkernel.Dlist.{Dlist, without}
use ulmk_microkernel.Timer.Wheel.{Timers, bucket_at, out_list, call_back, expire_list, expire_all}
use ulmk_microkernel.Timer.Places.{holds, unlinked, nodes-unlinked, holds-unlinked, unlinked-IsTidy}
use ulmk_microkernel.Timer.Collect.{IsWheel}

length-without : (n : ℕ) (xs : List ℕ) → length (without n xs) ≤ length xs
length-without n [] = omega arith
length-without n (x ∷ xs) = ground (arith, length-without n xs)

module _ (D : Dlist) where
  -- Nothing is left on the list of the expired.
  abbrev pub IsDrained : Timers D → Type 0
  IsDrained t = length (D.nodes t.links out_list) ≡ 0

  -- What the drain relies on: a callback keeps the wheel sound, leaves the clock, and adds nothing to the list that is
  -- being drained.
  pub record IsCallback (run : ℕ → ℕ → Timers D → Timers D) : Type 0 where
    pub keeps : (cb n : ℕ) (t : Timers D) → IsWheel D t → IsWheel D (run cb n t)
    pub same_clk : (cb n : ℕ) (t : Timers D) → (run cb n t).clk ≡ t.clk
    pub adds_none :
        (cb n : ℕ) (t : Timers D)
        → length (D.nodes (run cb n t).links out_list) ≤ length (D.nodes t.links out_list)

  -- The head of the list of the expired, taken off and given fresh pointers.
  abbrev popped : Timers D → ℕ → Timers D
  popped t n = record t { links = unlinked D t.links n }

  abbrev IsHead : Timers D → ℕ → List ℕ → Type 0
  IsHead t n ns = D.nodes t.links out_list ≡ n ∷ ns

  head_held :
      (t : Timers D) (n : ℕ) (ns : List ℕ) → IsHead t n ns → holds D t.links out_list n ≡ true
  head_held t n ns e = rw e (ground arith)

  holds-popped :
      (t : Timers D) (n : ℕ) (ns : List ℕ)
      → IsHead t n ns
      → (i m : ℕ) → holds D (popped t n).links i m ≡ (not (n == m) && holds D t.links i m)
  holds-popped t n ns e = holds-unlinked D t.links out_list n (head_held t n ns e)

  popped-IsWheel :
      (t : Timers D) (n : ℕ) (ns : List ℕ) → IsHead t n ns → IsWheel D t → IsWheel D (popped t n)
  popped-IsWheel t n ns e w = record {
    tidy = unlinked-IsTidy D t.links out_list n (head_held t n ns e) w.tidy;
    words = w.words;
    covered = λ lvl b m hl hb h.
        w.covered lvl b m hl hb (ground (arith, holds-popped t n ns e (bucket_at lvl b) m));
  }

  nodes-popped :
      (t : Timers D) (n : ℕ) (ns : List ℕ)
      → IsHead t n ns
      → length (D.nodes (popped t n).links out_list) ≤ length ns
  nodes-popped t n ns e =
      rw (nodes-unlinked D t.links out_list n (head_held t n ns e) out_list, e)
        (ground (arith, length-without n ns))

  get-head :
      (t : Timers D) (n : ℕ) (ns : List ℕ)
      → IsHead t n ns
      → D.get t.links out_list ≡ some (n, D.remove t.links n)
  get-head t n ns e = rw (D.get_lem t.links out_list, e)

  get-nil : (t : Timers D) → D.nodes t.links out_list ≡ [] → D.get t.links out_list ≡ none
  get-nil t e = rw (D.get_lem t.links out_list, e)

  -- Callbacks that leave one timer alone.
  abbrev pub Spares : (ℕ → ℕ → Timers D → Timers D) → ℕ → Type 0
  Spares run to =
      (cb n : ℕ) (t : Timers D) (i : ℕ) → holds D (run cb n t).links i to ≡ holds D t.links i to

  module _ (run : ℕ → ℕ → Timers D → Timers D) (c : IsCallback run) where
    call_back-IsWheel : (n : ℕ) (t : Timers D) → IsWheel D t → IsWheel D (call_back D run n t)
    unfolding call_back
    call_back-IsWheel n t w = elim (Bool-cases (t.cb n == 0)) [
      | inl e ↦ rw e w
      | inr e ↦ rw e (c.keeps (t.cb n) n t w)
    ]

    call_back-adds_none :
        (n : ℕ) (t : Timers D)
        → length (D.nodes (call_back D run n t).links out_list) ≤ length (D.nodes t.links out_list)
    unfolding call_back
    call_back-adds_none n t = elim (Bool-cases (t.cb n == 0)) [
      | inl e ↦ rw e (omega arith)
      | inr e ↦ rw e (c.adds_none (t.cb n) n t)
    ]

    expire_list-nil :
        (fuel : ℕ) (t : Timers D) → D.nodes t.links out_list ≡ [] → expire_list D run fuel t ≡ t
    unfolding expire_list
    expire_list-nil zero t e = refl
    expire_list-nil (suc fuel) t e = rw (get-nil t e, expire_list)

    expire_list-cons :
        (fuel : ℕ) (t : Timers D) (n : ℕ) (ns : List ℕ)
        → IsHead t n ns
        → expire_list D run (suc fuel) t ≡ expire_list D run fuel (call_back D run n (popped t n))
    unfolding expire_list
    expire_list-cons fuel t n ns e = rw (get-head t n ns e, expire_list)

    -- The drain ends with an empty list, in as many rounds as the list holds timers.
    pub record Drains (t u : Timers D) : Type 0 where
      pub wheel : IsWheel D u
      pub empty : IsDrained u

    drain_from :
        (fuel : ℕ) (t : Timers D) (ns : List ℕ)
        → D.nodes t.links out_list ≡ ns
        → length ns ≤ fuel
        → IsWheel D t
        → Drains t (expire_list D run fuel t)
    drain_from fuel t [] e h w = rw (expire_list-nil fuel t e) (record { wheel = w; empty = rw e })
    drain_from zero t (n ∷ ns) e h w = absurd (omega arith)
    drain_from (suc fuel) t (n ∷ ns) e h w =
        let next = call_back D run n (popped t n) in
        let rest =
          drain_from fuel next (D.nodes next.links out_list) refl
            (omega (arith, call_back-adds_none n (popped t n), nodes-popped t n ns e))
            (call_back-IsWheel n (popped t n) (popped-IsWheel t n ns e w)) in
        rw (expire_list-cons fuel t n ns e) (record { wheel = rest.wheel; empty = rest.empty })

    -- The drain of a tick, with a round for each timer that the tick took, leaves the list of the
    -- expired empty and the wheel sound, whatever the callbacks do that keep the wheel sound, leave the
    -- clock alone and put no timer on that list.
    pub expire_all-Drains : (t : Timers D) → IsWheel D t → Drains t (expire_all D run t)
    unfolding expire_all
    expire_all-Drains t w = drain_from _ t (D.nodes t.links out_list) refl (omega arith) w

    call_back-Spares :
        (to n : ℕ) (t : Timers D) (i : ℕ)
        → Spares run to
        → holds D (call_back D run n t).links i to ≡ holds D t.links i to
    unfolding call_back
    call_back-Spares to n t i sp = elim (Bool-cases (t.cb n == 0)) [
      | inl e ↦ rw e
      | inr e ↦ rw e (sp (t.cb n) n t i)
    ]

    head_differs :
        (to : ℕ) (t : Timers D) (n : ℕ) (ns : List ℕ)
        → IsHead t n ns
        → holds D t.links out_list to ≡ false
        → (n == to) ≡ false
    head_differs to t n ns e h = ground (arith, head_held t n ns e, ==→eq n to)

    -- A timer that is not on the list of the expired, and that no callback touches, stays put.
    drain-Spares :
        (to : ℕ) (fuel : ℕ) (t : Timers D) (ns : List ℕ)
        → D.nodes t.links out_list ≡ ns
        → Spares run to
        → holds D t.links out_list to ≡ false
        → (i : ℕ) → holds D (expire_list D run fuel t).links i to ≡ holds D t.links i to
    drain-Spares to fuel t [] e sp h i = rw (expire_list-nil fuel t e)
    drain-Spares to zero t (n ∷ ns) e sp h i = unfold expire_list in refl
    drain-Spares to (suc fuel) t (n ∷ ns) e sp h i =
        let next = call_back D run n (popped t n) in
        let stays =
          λ (j : ℕ). call_back-Spares to n (popped t n) j sp ∙ holds-popped t n ns e j to in
        let other = head_differs to t n ns e h in
        rw (expire_list-cons fuel t n ns e) (
          drain-Spares to fuel next (D.nodes next.links out_list) refl sp
            (ground (arith, stays out_list)) i
          ∙ ground (arith, stays i))

    pub expire_all-Spares :
        (to : ℕ) (t : Timers D)
        → Spares run to
        → holds D t.links out_list to ≡ false
        → (i : ℕ) → holds D (expire_all D run t).links i to ≡ holds D t.links i to
    unfolding expire_all
    expire_all-Spares to t sp h i = drain-Spares to _ t (D.nodes t.links out_list) refl sp h i

    call_back-clk : (n : ℕ) (t : Timers D) → (call_back D run n t).clk ≡ t.clk
    unfolding call_back
    call_back-clk n t = ground (arith, c.same_clk (t.cb n) n t)

    drain-clk :
        (fuel : ℕ) (t : Timers D) (ns : List ℕ)
        → D.nodes t.links out_list ≡ ns
        → (expire_list D run fuel t).clk ≡ t.clk
    drain-clk fuel t [] e = rw (expire_list-nil fuel t e)
    drain-clk zero t (n ∷ ns) e = unfold expire_list in refl
    drain-clk (suc fuel) t (n ∷ ns) e =
        let next = call_back D run n (popped t n) in
        rw (expire_list-cons fuel t n ns e)
          (drain-clk fuel next (D.nodes next.links out_list) refl ∙ call_back-clk n (popped t n))

    pub expire_all-clk : (t : Timers D) → (expire_all D run t).clk ≡ t.clk
    unfolding expire_all
    expire_all-clk t = drain-clk _ t (D.nodes t.links out_list) refl
