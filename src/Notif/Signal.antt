-- ===== src/Notif/Signal.antt =====
-- What notif_signal_impl does with the bits, and whom it wakes.
use ulmk_microkernel.Base.{
  put_at_self, ℕ, ◌<◌, ◌≡◌, refl, sym, ◌∙◌, ap, subst, true, false, not, ◌&&◌, ◌||◌, Option, none,
  some, ◌==◌, bit_and, bit_or, u32_mod, neg32, ok, einval, arith, Bool-cases, Option-cases, ==→eq,
  eq→==, inl, inr,
}
use ulmk_microkernel.Bits.{bit, complement, bit-bit_or, bit-bit_and}
use ulmk_microkernel.Bits.Bounds.{bit_or-lt, bit-consumed, bit_of_zero}
use ulmk_microkernel.Notif.Waking.{Woken, Told, wake_up_lem, wake_up-Woken, wake_events-Told}
use ulmk_microkernel.Notif.Object.{
  Notif, Thread, Kernel, notif_by_id, wake_up, wake_events, notif_signal, state_blocked,
}

-- What notif_signal_impl makes of the object at `id` and of its waiter.
pub data Signalled (k k' : Kernel) (id bits rc : ℕ) : Type 0 where
  unknown : rc ≡ neg32 einval → k' ≡ k → notif_by_id k id ≡ none → Signalled k k' id bits rc
  pending :
      rc ≡ ok
      → k'.thread ≡ k.thread
      → k'.events ≡ k.events
      → k'.notif id ≡ record (k.notif id) { bits = (k'.notif id).bits }
      → ((i : ℕ) → i < 32 → bit (k'.notif id).bits i ≡ (bit (k.notif id).bits i || bit bits i))
      → ((w : ℕ)
          → (k.notif id).waiter ≡ some w
          → (k.thread w).state ≡ state_blocked
          → (i : ℕ) → i < 32
          → bit (k'.notif id).bits i && bit (k.thread w).notif_wait_mask i ≡ false)
      → Signalled k k' id bits rc
  woken :
      (w : ℕ)
      → (k.notif id).waiter ≡ some w
      → (k.thread w).state ≡ state_blocked
      → rc ≡ ok
      → k'.notif id ≡ record (k.notif id) { bits = (k'.notif id).bits; waiter = none }
      → Woken (k.thread w) (k'.thread w)
      → Told (k.thread w) w (k'.thread w).notif_received k.events k'.events
      → ((k'.thread w).notif_received ≡ 0 → ⊥)
      → ((i : ℕ)
          → i < 32
          → bit (k'.thread w).notif_received i
            ≡ ((bit (k.notif id).bits i || bit bits i) && bit (k.thread w).notif_wait_mask i))
      → ((i : ℕ)
          → i < 32
          → bit (k'.notif id).bits i
            ≡ ((bit (k.notif id).bits i || bit bits i) && not (bit (k.thread w).notif_wait_mask i)))
      → ((v : ℕ) → (w == v) ≡ false → k'.thread v ≡ k.thread v)
      → Signalled k k' id bits rc

abbrev pub from_some : ℕ → Option ℕ → ℕ
from_some d none = d
from_some d (some x) = x

unmet :
    (all : ℕ) (w : Thread) (i : ℕ)
    → (not (w.state == state_blocked) || bit_and all w.notif_wait_mask == 0) ≡ true
    → w.state ≡ state_blocked
    → bit all i && bit w.notif_wait_mask i ≡ false
unmet all w i stays blocked = ground (
  arith,
  bit_of_zero (bit_and all w.notif_wait_mask) i,
  bit-bit_and all w.notif_wait_mask i,
  eq→== w.state state_blocked blocked,
)

-- Of bits that are 32-bit words: a signal of an object that is not there is refused and changes
-- nothing. Else the bits are added, and no other object and nothing else of this one is written. Where
-- they then meet no bit of the mask of a blocked waiter, no thread is written and nothing else happens.
-- Where they do, the waiter is made ready with exactly the bits that met, the object keeps exactly the
-- others and has no waiter; the waiter is queued, its bits are stored where it asked for them, its
-- timer is disarmed and it is taken off the endpoint it waited on too; no other thread is written.
pub signal_refines :
    (k : Kernel) (id bits : ℕ)
    → (k.notif id).bits < u32_mod
    → bits < u32_mod
    → let (rc, k') = notif_signal k id bits in
      Signalled k k' id bits rc × ((m : ℕ) → (id == m) ≡ false → k'.notif m ≡ k.notif m)
unfolding notif_signal
signal_refines k id bits h g = elim (Bool-cases (id == 0)) [
  | inl null ↦ rw (notif_signal, null) (unknown refl refl (rw null refl), λ m other. refl)
  | inr valid ↦ elim (Bool-cases (k.notif id).active) [
    | inr dead ↦
        rw (notif_signal, valid, dead) (unknown refl refl (rw (valid, dead) refl), λ m other. refl)
    | inl live ↦
        let all = bit_or (k.notif id).bits bits in
        let word = bit_or-lt 32 (k.notif id).bits bits h g in
        let joined = bit-bit_or (k.notif id).bits bits in
        let kept = put_at_self k.notif id (record (k.notif id) { bits = all }) in
        elim (Option-cases (k.notif id).waiter) [
          | inl alone ↦
              rw (notif_signal, valid, live, alone)
                (
                  pending refl refl refl
                      (kept
                        ∙ ap (λ b. record (k.notif id) { bits = b })
                            (sym (ap (λ (o : Notif). o.bits) kept)))
                      (λ i hi. ap (λ (o : Notif). bit o.bits i) kept ∙ joined i)
                      (λ w there. absurd (ground (arith, alone))),
                  λ m other. ground arith,
                )
          | inr (w, there) ↦
              let mask = (k.thread w).notif_wait_mask in
              let met = bit_and all mask in
              elim (Bool-cases (not ((k.thread w).state == state_blocked) || met == 0)) [
                | inl stays ↦
                    rw (notif_signal, valid, live, there, stays)
                      (
                        pending refl refl refl
                            (kept
                              ∙ ap (λ b. record (k.notif id) { bits = b })
                                  (sym (ap (λ (o : Notif). o.bits) kept)))
                            (λ i hi. ap (λ (o : Notif). bit o.bits i) kept ∙ joined i)
                            (λ v own blocked i hi.
                              ap (λ (o : Notif). bit o.bits i && bit (k.thread v).notif_wait_mask i)
                                kept
                              ∙ subst
                                  (λ u.
                                    (k.thread u).state ≡ state_blocked
                                    → bit all i && bit (k.thread u).notif_wait_mask i ≡ false)
                                  (ap (from_some w) (sym there ∙ own))
                                  (unmet all (k.thread w) i stays) blocked),
                        λ m other. ground arith,
                      )
                | inr wakes ↦
                    let freed = put_at_self k.notif id (record (k.notif id) {
                      bits = bit_and all (complement 32 met);
                      waiter = none;
                    }) in
                    let ready = put_at_self k.thread w (wake_up (k.thread w) met) in
                    rw (notif_signal, valid, live, there, wakes)
                      (
                        woken w there (==→eq _ _ (ground (arith, wakes))) refl
                            (freed
                              ∙ ap (λ b. record (k.notif id) { bits = b; waiter = none })
                                  (sym (ap (λ (o : Notif). o.bits) freed)))
                            (subst (Woken (k.thread w)) (sym ready)
                              (wake_up-Woken (k.thread w) met))
                            (subst
                              (λ g.
                                Told (k.thread w) w g k.events
                                  (wake_events (k.thread w) w met k.events))
                              (sym (
                                ap (λ (t : Thread). t.notif_received) ready
                                ∙ (wake_up_lem (k.thread w) met).1))
                              (wake_events-Told (k.thread w) w met k.events))
                            (λ e. ground (
                              arith,
                              wakes,
                              (wake_up_lem (k.thread w) met).1,
                              ap (λ (t : Thread). t.notif_received) ready,
                            ))
                            (λ i hi.
                              ap (λ (t : Thread). bit t.notif_received i) ready
                              ∙ ap (λ (x : ℕ). bit x i) (wake_up_lem (k.thread w) met).1
                              ∙ ground (arith, bit-bit_and all mask i, joined i))
                            (λ i hi.
                              ap (λ (o : Notif). bit o.bits i) freed
                              ∙ bit-consumed all mask i word hi
                              ∙ ground (arith, joined i))
                            (λ v other. ground arith),
                        λ m other. ground arith,
                      )
              ]
        ]
  ]
]
