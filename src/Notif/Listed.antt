-- ===== src/Notif/Listed.antt =====
-- Whether the threads that wait on notifications are their waiters, after each call of
-- kernel/notif/notif.c.
use ulmk_microkernel.Base.{
  put_at, put_at_self, put_at_other, ℕ, ◌≡◌, refl, sym, ◌∙◌, ap, Bool, true, not, ◌&&◌, ◌||◌, none,
  some, ◌==◌, bit_and, bit_or, arith, Bool-cases, Option-cases, ==→eq, ==→ne, inl, inr,
}
use ulmk_microkernel.Bits.{complement}
use ulmk_microkernel.Notif.Object.{
  Notif, Thread, Kernel, wake_up, notif_signal, notif_wait, notif_poll, notif_destroy,
  wait_timeout_cb, state_blocked, state_ready, blocked_notif, blocked_ipc_or_notif,
}
use ulmk_microkernel.Notif.Signal.{from_some}
use ulmk_microkernel.Notif.Waking.{wake_up_lem}
use ulmk_microkernel.Notif.Wakeups.{IsServed}
use ulmk_microkernel.Notif.Steps.{without_own}

-- Does the thread wait on a notification, perhaps with an endpoint?
abbrev pub is_waiting : Thread → Bool
is_waiting t =
    t.state == state_blocked && (t.reason == blocked_notif || t.reason == blocked_ipc_or_notif)

-- Every thread that waits on a notification is its waiter.
abbrev pub IsListed : Kernel → Type 0
IsListed k =
    (t : ℕ) → is_waiting (k.thread t) ≡ true → (k.notif (k.thread t).waits_on).waiter ≡ some t

-- An object is written, its waiter kept.
listed_notif :
    (k : Kernel) (n : ℕ) (o : Notif)
    → IsListed k
    → o.waiter ≡ (k.notif n).waiter
    → (t : ℕ) → is_waiting (k.thread t) ≡ true
    → (put_at k.notif n o (k.thread t).waits_on).waiter ≡ some t
listed_notif k n o s kept t h = elim (Bool-cases (n == (k.thread t).waits_on)) [
  | inl same ↦ ground (arith, same, kept, s t h, ==→eq n (k.thread t).waits_on same)
  | inr other ↦ rw (put_at_other k.notif n (k.thread t).waits_on o other) (s t h)
]

-- An object and a thread are written, and no other thread was its waiter.
listed_write :
    (k : Kernel) (n a : ℕ) (o : Notif) (t' : Thread)
    → IsListed k
    → ((t : ℕ) → (k.notif n).waiter ≡ some t → t ≡ a)
    → (is_waiting t' ≡ true → (put_at k.notif n o t'.waits_on).waiter ≡ some a)
    → (t : ℕ) → is_waiting (put_at k.thread a t' t) ≡ true
    → (put_at k.notif n o (put_at k.thread a t' t).waits_on).waiter ≡ some t
listed_write k n a o t' s only own t h = elim (Bool-cases (a == t)) [
  | inl same ↦
      let here : put_at k.thread a t' t ≡ t' = rw same refl in
      rw here (own (ap is_waiting (sym here) ∙ h) ∙ ap some (==→eq a t same))
  | inr other ↦
      let there = put_at_other k.thread a t t' other in
      let was = s t (ap is_waiting (sym there) ∙ h) in
      rw there (elim (Bool-cases (n == (k.thread t).waits_on)) [
        | inl same ↦
            let listed : (k.notif n).waiter ≡ some t =
              ap (λ (m : ℕ). (k.notif m).waiter) (==→eq n (k.thread t).waits_on same) ∙ was in
            absurd (==→ne a t other (sym (only t listed)))
        | inr elsewhere ↦
            ap (λ (p : Notif). p.waiter) (put_at_other k.notif n (k.thread t).waits_on o elsewhere)
            ∙ was
      ])
]

-- A thread that was the waiter is not blocked any more.
freed-IsListed :
    (k : Kernel) (n a : ℕ) (o : Notif) (t' : Thread)
    → IsListed k
    → (k.notif n).waiter ≡ some a
    → t'.state ≡ state_ready
    → (t : ℕ) → is_waiting (put_at k.thread a t' t) ≡ true
    → (put_at k.notif n o (put_at k.thread a t' t).waits_on).waiter ≡ some t
freed-IsListed k n a o t' s there ready =
    listed_write k n a o t' s (λ t h. ap (from_some a) (sym h ∙ there))
      (λ h. absurd (ground (arith, ready, h)))

pub signal-IsListed : (k : Kernel) (id bits : ℕ) → IsListed k → IsListed (notif_signal k id bits).1
unfolding notif_signal
signal-IsListed k id bits s = elim (Bool-cases (id == 0)) [
  | inl null ↦ rw (notif_signal, null) s
  | inr valid ↦ elim (Bool-cases (k.notif id).active) [
    | inr dead ↦ rw (notif_signal, valid, dead) s
    | inl live ↦
        let all = bit_or (k.notif id).bits bits in
        elim (Option-cases (k.notif id).waiter) [
          | inl nobody ↦
              rw (notif_signal, valid, live, nobody)
                (listed_notif k id (record (k.notif id) { bits = all }) s refl)
          | inr (a, there) ↦
              let met = bit_and all (k.thread a).notif_wait_mask in
              elim (Bool-cases (not ((k.thread a).state == state_blocked) || met == 0)) [
                | inl stays ↦
                    rw (notif_signal, valid, live, there, stays)
                      (listed_notif k id (record (k.notif id) { bits = all }) s refl)
                | inr wakes ↦
                    rw (notif_signal, valid, live, there, wakes)
                      (freed-IsListed k id a
                        (record (k.notif id) {
                          bits = bit_and all (complement 32 met);
                          waiter = none;
                        })
                        (wake_up (k.thread a) met) s there (wake_up_lem (k.thread a) met).0)
              ]
        ]
  ]
]

pub poll-IsListed : (k : Kernel) (id mask : ℕ) → IsListed k → IsListed (notif_poll k id mask).1
unfolding notif_poll
poll-IsListed k id mask s = elim (Bool-cases (id == 0)) [
  | inl null ↦ rw (notif_poll, null) s
  | inr valid ↦ elim (Bool-cases (k.notif id).active) [
    | inr dead ↦ rw (notif_poll, valid, dead) s
    | inl live ↦ rw (notif_poll, valid, live) (listed_notif k id _ s refl)
  ]
]

-- A thread waits on an object that has no waiter.
pub wait-IsListed :
    (k : Kernel) (a id mask out : ℕ)
    → (k.notif id).waiter ≡ none
    → IsListed k
    → IsListed (notif_wait k (some a) id mask out).1
unfolding notif_wait
wait-IsListed k a id mask out free s = elim (Bool-cases (id == 0)) [
  | inl null ↦ rw (notif_wait, null) s
  | inr valid ↦ elim (Bool-cases (k.notif id).active) [
    | inr dead ↦ rw (notif_wait, valid, dead) s
    | inl live ↦ elim (Bool-cases (out == 0)) [
      | inl no_out ↦ rw (notif_wait, valid, live, no_out) s
      | inr an_out ↦ elim (Bool-cases (bit_and (k.notif id).bits mask == 0)) [
        | inr matched ↦ rw (notif_wait, valid, live, an_out, matched) (listed_notif k id _ s refl)
        | inl unmet ↦
            let o = record (k.notif id) { waiter = some a; wait_mask = mask } in
            rw (notif_wait, valid, live, an_out, unmet)
              (listed_write k id a o _ s (λ t h. absurd (ground (arith, h, free)))
                (λ h. ap (λ (p : Notif). p.waiter) (put_at_self k.notif id o)))
      ]
    ]
  ]
]

pub destroy-IsListed : (k : Kernel) (id : ℕ) → IsListed k → IsListed (notif_destroy k id).1
unfolding notif_destroy
destroy-IsListed k id s = elim (Bool-cases (id == 0)) [
  | inl null ↦ rw (notif_destroy, null) s
  | inr valid ↦ elim (Bool-cases (k.notif id).active) [
    | inr dead ↦ rw (notif_destroy, valid, dead) s
    | inl live ↦ elim (Option-cases (k.notif id).waiter) [
      | inl nobody ↦ rw (notif_destroy, valid, live, nobody) (listed_notif k id _ s (sym nobody))
      | inr (a, there) ↦
          rw (notif_destroy, valid, live, there) (freed-IsListed k id a _ _ s there refl)
    ]
  ]
]

pub timeout-IsListed :
    (k : Kernel) (a : ℕ) → IsServed k → IsListed k → IsListed (wait_timeout_cb k a)
unfolding wait_timeout_cb
timeout-IsListed k a served s =
    elim (Bool-cases
      (not ((k.thread a).state == state_blocked) || not ((k.thread a).reason == blocked_notif))) [
        | inl idle ↦ rw (wait_timeout_cb, idle) s
        | inr waits ↦
            let own = s a (ground (arith, waits)) in
            rw (wait_timeout_cb, waits, without_own k (k.thread a).waits_on a _ served own refl)
              (freed-IsListed k (k.thread a).waits_on a _ _ s own refl)
      ]
