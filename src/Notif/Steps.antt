-- ===== src/Notif/Steps.antt =====
-- The waiters of notifications after each call of kernel/notif/notif.c.
use ulmk_microkernel.Base.{
  put_at, put_at_self, put_at_other, ℕ, ◌≡◌, ◌≢◌, ◌⊎◌, refl, sym, ◌∙◌, ap, subst, false, not, ◌||◌,
  none, some, ◌==◌, bit_and, arith, Bool-cases, Option-cases, ==→eq, ==→ne, eq→==, ne→==, inl, inr,
  einval, etimeout,
}
use ulmk_microkernel.Bits.{complement}
use ulmk_microkernel.Notif.Object.{
  Notif, Thread, Kernel, notif_wait, notif_poll, notif_destroy, without_waiter, wait_timeout_cb,
  state_blocked, state_ready, blocked_none, blocked_notif, notif_invalid, ep_invalid,
}
use ulmk_microkernel.Notif.Signal.{from_some}
use ulmk_microkernel.Notif.Wakeups.{Serves, IsServed, fewer, served_notif, served_write, alone_of}

-- Bits of an object are taken.
taken-IsServed :
    (k : Kernel) (n taken : ℕ)
    → IsServed k
    → (m w : ℕ)
    → (put_at k.notif n (record (k.notif n) { bits = bit_and (k.notif n).bits taken }) m).waiter
      ≡ some w
    → Serves
        (put_at k.notif n (record (k.notif n) { bits = bit_and (k.notif n).bits taken }) m)
        m
        (k.thread w)
taken-IsServed k n taken s =
    served_notif k n (record (k.notif n) { bits = bit_and (k.notif n).bits taken }) k.thread s
      (λ m w other h. refl)
      (λ w h.
        let was = s n w h in
        record {
          live = was.live;
          active = was.active;
          blocked = was.blocked;
          on = was.on;
          unmet = fewer (k.notif n).bits taken (k.thread w).notif_wait_mask was.unmet;
        })

pub poll-IsServed : (k : Kernel) (id mask : ℕ) → IsServed k → IsServed (notif_poll k id mask).1
unfolding notif_poll
poll-IsServed k id mask s = elim (Bool-cases (id == 0)) [
  | inl null ↦ rw (notif_poll, null) s
  | inr valid ↦ elim (Bool-cases (k.notif id).active) [
    | inr dead ↦ rw (notif_poll, valid, dead) s
    | inl live ↦
        rw (notif_poll, valid, live)
          (taken-IsServed k id (complement 32 (bit_and (k.notif id).bits mask)) s)
  ]
]

-- A thread that runs waits on nothing.
idle_alone :
    (k : Kernel) (a : ℕ)
    → IsServed k
    → (k.thread a).state ≢ state_blocked
    → (m : ℕ) → (k.notif m).waiter ≢ some a
idle_alone k a s running m h = running (s m a h).blocked

pub wait-IsServed :
    (k : Kernel) (a id mask out : ℕ)
    → (k.thread a).state ≢ state_blocked
    → IsServed k
    → IsServed (notif_wait k (some a) id mask out).1
unfolding notif_wait
wait-IsServed k a id mask out running s = elim (Bool-cases (id == 0)) [
  | inl null ↦ rw (notif_wait, null) s
  | inr valid ↦ elim (Bool-cases (k.notif id).active) [
    | inr dead ↦ rw (notif_wait, valid, dead) s
    | inl live ↦ elim (Bool-cases (out == 0)) [
      | inl no_out ↦ rw (notif_wait, valid, live, no_out) s
      | inr an_out ↦ elim (Bool-cases (bit_and (k.notif id).bits mask == 0)) [
        | inr matched ↦
            rw (notif_wait, valid, live, an_out, matched)
              (taken-IsServed k id (complement 32 (bit_and (k.notif id).bits mask)) s)
        | inl unmet ↦
            let o = record (k.notif id) { waiter = some a; wait_mask = mask } in
            let t = record (k.thread a) {
              reason = blocked_notif;
              notif_wait_mask = mask;
              waits_on = id;
              notif_bits_outptr = out;
              block_status = 0;
              state = state_blocked;
            } in
            let serves : Serves o id t = record {
              live = valid;
              active = live;
              blocked = refl;
              on = refl;
              unmet = ==→eq _ 0 unmet;
            } in
            rw (notif_wait, valid, live, an_out, unmet)
              (served_write k id a o t s (λ m other. idle_alone k a s running m)
                (λ w h.
                  subst (λ v. Serves o id (put_at k.thread a t v)) (ap (from_some a) h)
                    (subst (Serves o id) (sym (put_at_self k.thread a t)) serves)))
      ]
    ]
  ]
]

pub destroy-IsServed : (k : Kernel) (id : ℕ) → IsServed k → IsServed (notif_destroy k id).1
unfolding notif_destroy
destroy-IsServed k id s = elim (Bool-cases (id == 0)) [
  | inl null ↦ rw (notif_destroy, null) s
  | inr valid ↦ elim (Bool-cases (k.notif id).active) [
    | inr dead ↦ rw (notif_destroy, valid, dead) s
    | inl live ↦ elim (Option-cases (k.notif id).waiter) [
      | inl nobody ↦
          rw (notif_destroy, valid, live, nobody)
            (served_notif k id (record (k.notif id) { waiter = none; active = false }) k.thread s
              (λ m w other h. refl) (λ w h. absurd (ground (arith, h))))
      | inr (a, there) ↦
          rw (notif_destroy, valid, live, there)
            (served_write k id a (record (k.notif id) { waiter = none; active = false })
              (record (k.thread a) {
                waits_on = notif_invalid;
                waits_on_ep = ep_invalid;
                block_status = einval;
                reason = blocked_none;
                state = state_ready;
                timeout_cb = 0;
              })
              s (alone_of k id a s (s id a there).on) (λ w h. absurd (ground (arith, h))))
    ]
  ]
]

own_waiter : (k : Kernel) (n a : ℕ) → ((k.notif n).waiter ≡ some a) ⊎ ((k.notif n).waiter ≢ some a)
own_waiter k n a = elim (Option-cases (k.notif n).waiter) [
  | inl nobody ↦ inr (λ h. ground (arith, nobody, h))
  | inr (w, there) ↦ elim (Bool-cases (w == a)) [
    | inl same ↦ inl (there ∙ ap some (==→eq w a same))
    | inr other ↦ inr (λ h. ==→ne w a other (ap (from_some a) (sym there ∙ h)))
  ]
]

waiter_here :
    (k : Kernel) (a m w : ℕ)
    → IsServed k
    → a ≡ w
    → (k.notif m).waiter ≡ some w
    → (k.notif (k.thread a).waits_on).waiter ≡ some a
waiter_here k a m w s e h =
    let mine : (k.notif m).waiter ≡ some a = h ∙ ap some (sym e) in
    ap (λ (j : ℕ). (k.notif j).waiter) (s m a mine).on ∙ mine

pub without_own :
    (k : Kernel) (n a : ℕ) (freed : ℕ → Notif)
    → IsServed k
    → (k.notif n).waiter ≡ some a
    → put_at k.notif n (record (k.notif n) { waiter = none }) ≡ freed
    → without_waiter k n a ≡ freed
without_own k n a freed s own e =
    let was = s n a own in rw (without_waiter, was.live, was.active, own, eq→== a a refl) e

without_other :
    (k : Kernel) (n a : ℕ) → (k.notif n).waiter ≢ some a → without_waiter k n a ≡ k.notif
without_other k n a other = elim (Bool-cases (n == 0)) [
  | inl null ↦ rw (without_waiter, null) refl
  | inr valid ↦ elim (Bool-cases (k.notif n).active) [
    | inr dead ↦ rw (without_waiter, valid, dead) refl
    | inl live ↦ elim (Option-cases (k.notif n).waiter) [
      | inl nobody ↦ rw (without_waiter, valid, live, nobody) refl
      | inr (w, there) ↦
          rw (without_waiter, valid, live, there, ne→== w a (λ e. other (there ∙ ap some e))) refl
    ]
  ]
]

-- The thread at `a` becomes ready, and no object has it as its waiter.
freed-IsServed :
    (k : Kernel) (a : ℕ) (t : Thread)
    → IsServed k
    → (m w : ℕ) → (without_waiter k (k.thread a).waits_on a m).waiter ≡ some w
    → Serves (without_waiter k (k.thread a).waits_on a m) m (put_at k.thread a t w)
freed-IsServed k a t s = elim (own_waiter k (k.thread a).waits_on a) [
  | inl own ↦ rw (without_own k (k.thread a).waits_on a _ s own refl) (
      served_write k (k.thread a).waits_on a
        (record (k.notif (k.thread a).waits_on) { waiter = none }) t s
        (alone_of k (k.thread a).waits_on a s refl) (λ w h. absurd (ground (arith, h))))
  | inr other ↦ rw (without_other k (k.thread a).waits_on a other) (λ m w h.
      rw (put_at_other k.thread a w t (ne→== a w (λ e. other (waiter_here k a m w s e h))))
        (s m w h))
]

pub timeout-IsServed : (k : Kernel) (a : ℕ) → IsServed k → IsServed (wait_timeout_cb k a)
unfolding wait_timeout_cb
timeout-IsServed k a s =
    elim (Bool-cases
      (not ((k.thread a).state == state_blocked) || not ((k.thread a).reason == blocked_notif))) [
        | inl idle ↦ rw (wait_timeout_cb, idle) s
        | inr waits ↦
            rw (wait_timeout_cb, waits)
              (freed-IsServed k a
                (record (k.thread a) {
                  waits_on = notif_invalid;
                  block_status = etimeout;
                  reason = blocked_none;
                  state = state_ready;
                })
                s)
      ]
