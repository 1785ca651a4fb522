-- ===== src/Notif/Timed.antt =====
-- notif_wait_timeout_impl of kernel/notif/notif.c: a wait that ends after a time.
use ulmk_microkernel.Base.{
  put_at, put_at_self, ap, ℕ, ◌≡◌, ◌≢◌, refl, Bool, true, false, not, ◌&&◌, Option, none, some, ◌∷◌,
  ◌==◌, if◌then◌else◌, bit_and, neg32, ok, einval, Bool-cases, Option-cases, ne→==, inl, inr,
}
use ulmk_microkernel.Bits.{complement}
use ulmk_microkernel.Notif.Object.{
  Notif, Thread, Kernel, enqueue, dequeue, kick_pending, store_bits, timeout_arm, notif_by_id,
  notif_wait, state_ready, state_blocked, blocked_none, blocked_notif, notif_invalid,
}
use ulmk_microkernel.Sleep.Timeout.{ms_to_ticks}

abbrev is_waiter : Option ℕ → ℕ → Bool
is_waiter none a = false
is_waiter (some w) a = w == a

-- ulmk_timeout_arm writes the callback before it adds the timer. `cb` is the address of
-- notif_wait_timeout_cb.
abbrev with_timeout : Kernel → ℕ → ℕ → ℕ → Kernel
with_timeout k a ms cb = record k {
  thread = put_at k.thread a (record (k.thread a) { timeout_cb = cb });
  events = timeout_arm a ms ∷ k.events;
}

-- What follows the wait of the thread `a` on the object at `n`, blocked in `blocked`: ulmk_timeout_arm,
-- and where the timer is not added, with `armed` false, the way back.
arm_wait : Kernel → ℕ → ℕ → ℕ → ℕ → Bool → ℕ × Kernel
arm_wait blocked n a ms cb armed =
    let k = with_timeout blocked a ms cb in
    if armed
    then (ok, k)
    else (if (k.thread a).state == state_blocked
          && (k.thread a).reason == blocked_notif
          && is_waiter (k.notif n).waiter a
        then (
          neg32 einval,
          record {
            notif = put_at k.notif n (record (k.notif n) { waiter = none });
            thread = put_at k.thread a (record (k.thread a) {
              reason = blocked_none;
              waits_on = notif_invalid;
              notif_bits_outptr = 0;
              state = state_ready;
            });
            events = kick_pending ∷ enqueue a ∷ k.events;
          },
        )
        else (neg32 einval, record k { events = kick_pending ∷ k.events }))

-- notif_wait_timeout_impl of the thread `cur`. Nothing changes the bits between the two tests.
pub notif_wait_timeout : ℕ → Kernel → Option ℕ → ℕ → ℕ → ℕ → ℕ → ℕ → Bool → ℕ × Kernel
notif_wait_timeout hz k cur id mask out ms cb armed =
    if ms_to_ticks hz ms == 0 then (neg32 einval, k) else elim (notif_by_id k id) [
      | none ↦ (neg32 einval, k)
      | some n ↦
          let o = k.notif n in
          let matched = bit_and o.bits mask in
          if out == 0
          then (neg32 einval, k)
          else (if not (matched == 0)
              then (
                ok,
                record k {
                  notif =
                      put_at k.notif n (record o { bits = bit_and o.bits (complement 32 matched) });
                  events = store_bits out matched ∷ k.events;
                },
              )
              else elim cur [
                | none ↦ (neg32 einval, k)
                | some a ↦
                    let blocked = record (k.thread a) {
                      reason = blocked_notif;
                      notif_wait_mask = mask;
                      waits_on = id;
                      notif_bits_outptr = out;
                      block_status = 0;
                      state = state_blocked;
                    } in
                    let again = bit_and o.bits mask in
                    if not (again == 0)
                    then (
                      ok,
                      record {
                        notif = put_at k.notif n (record o {
                          bits = bit_and o.bits (complement 32 again);
                          waiter = none;
                          wait_mask = mask;
                        });
                        thread = put_at k.thread a (record blocked {
                          state = state_ready;
                          reason = blocked_none;
                          waits_on = notif_invalid;
                        });
                        events = store_bits out again ∷ enqueue a ∷ dequeue a ∷ k.events;
                      },
                    )
                    else arm_wait
                        (record {
                          notif = put_at k.notif n (record o { waiter = some a; wait_mask = mask });
                          thread = put_at k.thread a blocked;
                          events = dequeue a ∷ k.events;
                        })
                        n a ms cb armed
              ])
    ]

-- How a timed wait from `k` that leaves `k'` relates to a plain one, which leaves `k₀`.
pub data MatchesWait (k k₀ k' : Kernel) (cur : Option ℕ) (id rc ms cb : ℕ) : Type 0 where
  at_once : k' ≡ k₀ → k₀.thread ≡ k.thread → MatchesWait k k₀ k' cur id rc ms cb
  parked :
      (a : ℕ)
      → cur ≡ some a
      → rc ≡ ok
      → (k₀.thread a).state ≡ state_blocked
      → (k₀.notif id).waiter ≡ some a
      → k'.notif ≡ k₀.notif
      → k'.thread ≡ put_at k₀.thread a (record (k₀.thread a) { timeout_cb = cb })
      → k'.events ≡ timeout_arm a ms ∷ k₀.events
      → MatchesWait k k₀ k' cur id rc ms cb

-- With a time that fits and a timer that is added, a timed wait returns what notif_wait_impl returns.
-- Where that does not block, no thread is written, and the two leave the same. Where it blocks the
-- thread as the waiter of the object, a timed wait leaves the same but for the callback of the thread's
-- time limit, which is set, and its timer, which is armed for the time.
pub timed_wait_agrees :
    (hz : ℕ) (k : Kernel) (cur : Option ℕ) (id mask out ms cb : ℕ)
    → ms_to_ticks hz ms ≢ 0
    → let (rc, k') = notif_wait_timeout hz k cur id mask out ms cb true in
      let (rc₀, k₀) = notif_wait k cur id mask out in
      (rc ≡ rc₀) × MatchesWait k k₀ k' cur id rc ms cb
unfolding notif_wait_timeout notif_wait arm_wait
timed_wait_agrees hz k cur id mask out ms cb fits = elim (Bool-cases (id == 0)) [
  | inl null ↦ rw (notif_wait_timeout, notif_wait, ne→== _ 0 fits, null) (refl, at_once refl refl)
  | inr valid ↦ elim (Bool-cases (k.notif id).active) [
    | inr dead ↦
        rw (notif_wait_timeout, notif_wait, ne→== _ 0 fits, valid, dead) (refl, at_once refl refl)
    | inl live ↦ elim (Bool-cases (out == 0)) [
      | inl no_out ↦
          rw (notif_wait_timeout, notif_wait, ne→== _ 0 fits, valid, live, no_out)
            (refl, at_once refl refl)
      | inr an_out ↦ elim (Bool-cases (bit_and (k.notif id).bits mask == 0)) [
        | inr matched ↦
            rw (notif_wait_timeout, notif_wait, ne→== _ 0 fits, valid, live, an_out, matched)
              (refl, at_once refl refl)
        | inl unmet ↦ elim (Option-cases cur) [
          | inl nobody ↦
              rw
                (notif_wait_timeout, notif_wait, ne→== _ 0 fits, valid, live, an_out, unmet, nobody)
                (refl, at_once refl refl)
          | inr (a, running) ↦
              rw
                (
                  notif_wait_timeout,
                  notif_wait,
                  ne→== _ 0 fits,
                  valid,
                  live,
                  an_out,
                  unmet,
                  running,
                  unmet,
                )
                (
                  refl,
                  parked a refl refl (ap (λ (t : Thread). t.state) (put_at_self k.thread a _))
                      (ap (λ (o : Notif). o.waiter) (put_at_self k.notif id _)) refl refl refl,
                )
        ]
      ]
    ]
  ]
]
