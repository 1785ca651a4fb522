-- ===== src/Notif/Wakeups.antt =====
-- What holds of a notification and its waiter, before and after a signal.
use ulmk_microkernel.Base.{
  put_at, put_at_self, put_at_other, ℕ, ◌≡◌, ◌≢◌, refl, sym, ◌∙◌, ap, subst, true, false, not, ◌||◌,
  none, some, ◌==◌, bit_and, bit_or, arith, Bool-cases, Option-cases, ==→eq, ==→ne, ne→==, inl, inr,
}
use ulmk_microkernel.Bits.{complement, bit-bit_and, no_bits}
use ulmk_microkernel.Bits.Bounds.{bit_of_zero}
use ulmk_microkernel.Notif.Object.{Notif, Thread, Kernel, wake_up, notif_signal, state_blocked}
use ulmk_microkernel.Notif.Signal.{from_some}

-- What holds of the object at `m` and its waiter `t`: the object is live, the thread is blocked on it,
-- and no bit that it has is one that the thread waits for.
pub record Serves (o : Notif) (m : ℕ) (t : Thread) : Type 0 where
  pub live : (m == 0) ≡ false
  pub active : o.active ≡ true
  pub blocked : t.state ≡ state_blocked
  pub on : t.waits_on ≡ m
  pub unmet : bit_and o.bits t.notif_wait_mask ≡ 0

abbrev pub IsServed : Kernel → Type 0
IsServed k = (m w : ℕ) → (k.notif m).waiter ≡ some w → Serves (k.notif m) m (k.thread w)

-- Bits that are taken leave no new bit to wait for.
pub fewer : (bits taken mask : ℕ) → bit_and bits mask ≡ 0 → bit_and (bit_and bits taken) mask ≡ 0
fewer bits taken mask h = no_bits _ (λ i. ground (
  arith,
  bit-bit_and (bit_and bits taken) mask i,
  bit-bit_and bits taken i,
  bit-bit_and bits mask i,
  bit_of_zero (bit_and bits mask) i,
))

-- One object is written.
pub served_notif :
    (k : Kernel) (n : ℕ) (o : Notif) (thread' : ℕ → Thread)
    → IsServed k
    → ((m w : ℕ) → (n == m) ≡ false → (k.notif m).waiter ≡ some w → thread' w ≡ k.thread w)
    → ((w : ℕ) → o.waiter ≡ some w → Serves o n (thread' w))
    → (m w : ℕ) → (put_at k.notif n o m).waiter ≡ some w
    → Serves (put_at k.notif n o m) m (thread' w)
served_notif k n o thread' s same_thread own m w h = elim (Bool-cases (n == m)) [
  | inl same ↦
      subst (λ j. Serves (put_at k.notif n o j) j (thread' w)) (==→eq n m same)
        (subst (λ p. Serves p n (thread' w)) (sym (put_at_self k.notif n o))
          (own w (
            ap (λ (p : Notif). p.waiter) (sym (put_at_self k.notif n o))
            ∙ ap (λ (j : ℕ). (put_at k.notif n o j).waiter) (==→eq n m same)
            ∙ h)))
  | inr other ↦
      let kept = put_at_other k.notif n m o other in
      let old : (k.notif m).waiter ≡ some w = ap (λ (p : Notif). p.waiter) (sym kept) ∙ h in
      rw (kept, same_thread m w other old) (s m w old)
]

-- One object and one thread are written, and the thread waits on no other object.
pub served_write :
    (k : Kernel) (n a : ℕ) (o : Notif) (t : Thread)
    → IsServed k
    → ((m : ℕ) → (n == m) ≡ false → (k.notif m).waiter ≢ some a)
    → ((w : ℕ) → o.waiter ≡ some w → Serves o n (put_at k.thread a t w))
    → (m w : ℕ) → (put_at k.notif n o m).waiter ≡ some w
    → Serves (put_at k.notif n o m) m (put_at k.thread a t w)
served_write k n a o t s alone own =
    served_notif k n o (put_at k.thread a t) s
      (λ m w other h.
        put_at_other k.thread a w t (ne→== a w (λ e. alone m other (h ∙ ap some (sym e)))))
      own

-- The waiter of one object waits on no other.
pub alone_of :
    (k : Kernel) (n a : ℕ)
    → IsServed k
    → (k.thread a).waits_on ≡ n
    → (m : ℕ) → (n == m) ≡ false
    → (k.notif m).waiter ≢ some a
alone_of k n a s at m other h = ==→ne n m other (sym at ∙ (s m a h).on)

-- A signal keeps the invariant.
pub signal-IsServed : (k : Kernel) (id bits : ℕ) → IsServed k → IsServed (notif_signal k id bits).1
unfolding notif_signal
signal-IsServed k id bits s = elim (Bool-cases (id == 0)) [
  | inl null ↦ rw (notif_signal, null) s
  | inr valid ↦ elim (Bool-cases (k.notif id).active) [
    | inr dead ↦ rw (notif_signal, valid, dead) s
    | inl live ↦
        let all = bit_or (k.notif id).bits bits in
        elim (Option-cases (k.notif id).waiter) [
          | inl nobody ↦
              rw (notif_signal, valid, live, nobody)
                (served_notif k id (record (k.notif id) { bits = all }) k.thread s
                  (λ m w other h. refl) (λ w h. absurd (ground (arith, nobody, h))))
          | inr (a, there) ↦
              let met = bit_and all (k.thread a).notif_wait_mask in
              elim (Bool-cases (not ((k.thread a).state == state_blocked) || met == 0)) [
                | inl stays ↦
                    rw (notif_signal, valid, live, there, stays)
                      (served_notif k id (record (k.notif id) { bits = all }) k.thread s
                        (λ m w other h. refl)
                        (λ w h.
                          subst (λ v. Serves (record (k.notif id) { bits = all }) id (k.thread v))
                            (ap (from_some a) (sym there ∙ h))
                            (let was = s id a there in
                              record {
                                live = valid;
                                active = live;
                                blocked = was.blocked;
                                on = was.on;
                                unmet = ==→eq met 0 (ground (arith, stays, was.blocked));
                              })))
                | inr wakes ↦
                    rw (notif_signal, valid, live, there, wakes)
                      (served_write k id a
                        (record (k.notif id) {
                          bits = bit_and all (complement 32 met);
                          waiter = none;
                        })
                        (wake_up (k.thread a) met) s (alone_of k id a s (s id a there).on)
                        (λ w h. absurd (ground (arith, h))))
              ]
        ]
  ]
]
