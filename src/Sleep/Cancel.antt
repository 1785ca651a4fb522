-- ===== src/Sleep/Cancel.antt =====
-- What becomes of a sleep that ulmk_kern_sleep_cancel ends.
use ulmk_microkernel.Base.{
  put_at_self, put_at_other, ℕ, ◌+◌, ◌<◌, ◌≤◌, ◌≡◌, ◌≢◌, refl, sym, ◌∙◌, ap, subst, false, not,
  ◌&&◌, some, ◌==◌, arith, ok, ecanceled, Bool-cases, inl, inr,
}
use ulmk_microkernel.Dlist.{Dlist}
use ulmk_microkernel.Notif.Object.{state_ready, blocked_none}
use ulmk_microkernel.Timer.Index.{u64_mod, timeout_max}
use ulmk_microkernel.Timer.Wheel.{Timers, cancel}
use ulmk_microkernel.Timer.Places.{holds}
use ulmk_microkernel.Timer.Collect.{IsWheel}
use ulmk_microkernel.Timer.Add.{added, added-Placed, effective, cancel_lem}
use ulmk_microkernel.Sleep.Timeout.{
  ms_to_ticks, timeout_arm, timeout_disarm, Sleeper, Sleepers, kern_sleep, sleep_cancel,
}
use ulmk_microkernel.Sleep.Outcome.{rearmed, sleep_outcome, ms_to_ticks_bounds, effective_lem}

-- The thread at `th` is awake as one whose sleep was cancelled, and its timer is off the wheel, which
-- is sound and holds every other timer where `t` does.
pub record Cancelled (D : Dlist) (t : Timers D) (k : Sleepers D) (th : ℕ) : Type 0 where
  pub state : (k.thread th).state ≡ state_ready
  pub reason : (k.thread th).reason ≡ blocked_none
  pub status : (k.thread th).block_status ≡ ecanceled
  pub off : D.is_linked k.timers.links th ≡ false
  pub no_callback : k.timers.cb th ≡ 0
  pub wheel : IsWheel D k.timers
  pub others : (i m : ℕ) → holds D k.timers.links i m ≡ (not (th == m) && holds D t.links i m)

module _ (D : Dlist) where
  rearmed-IsWheel : (t : Timers D) (th cb : ℕ) → IsWheel D t → IsWheel D (rearmed D t th cb)
  rearmed-IsWheel t th cb w =
      let u = (cancel_lem D t th w).3 in
      record { tidy = u.tidy; words = u.words; covered = u.covered }

  rearmed-clk : (t : Timers D) (th cb : ℕ) → (rearmed D t th cb).clk ≡ t.clk
  unfolding cancel
  rearmed-clk t th cb = elim (Bool-cases (D.is_linked t.links th)) [
    | inl on ↦ rw (rearmed, on) refl
    | inr off ↦ rw (rearmed, off) refl
  ]

  sleep-others :
      (hz cb : ℕ) (k : Sleepers D) (cur ms v : ℕ)
      → (cur == v) ≡ false
      → (kern_sleep D hz cb k (some cur) ms).1.thread v ≡ k.thread v
  unfolding kern_sleep
  sleep-others hz cb k cur ms v other = elim (Bool-cases (ms_to_ticks hz ms == 0)) [
    | inl long ↦ rw (kern_sleep, long) refl
    | inr fits ↦ elim (Bool-cases ((timeout_arm D hz k.timers cur ms cb).0 == ok)) [
      | inl armed ↦ rw (kern_sleep, fits, armed) (put_at_other k.thread cur v _ other)
      | inr refused ↦ rw (kern_sleep, fits, refused) (rw other refl)
    ]
  ]

  -- A wheel to which the timer was added, and from which it is taken again.
  disarmed-others :
      (t : Timers D) (th cb ticks : ℕ)
      → effective ticks ≤ timeout_max
      → t.clk + effective ticks < u64_mod
      → IsWheel D t
      → let u = (cancel D (added D (rearmed D t th cb) th ticks) th).1 in
        (D.is_linked u.links th ≡ false)
        × IsWheel D u
        × ((i m : ℕ) → holds D u.links i m ≡ (not (th == m) && holds D t.links i m))
  disarmed-others t th cb ticks h hw w =
      let r = rearmed D t th cb in
      let placed =
        (added-Placed D r th ticks h (rw (rearmed-clk t th cb) hw) (rearmed-IsWheel t th cb w)).0 in
      let (said, off, held, wheel) = cancel_lem D (added D r th ticks) th placed.wheel in
      let first = (cancel_lem D t th w).2 in
      (
        off,
        wheel,
        λ i m. elim (Bool-cases (th == m)) [
          | inl same ↦ held i m ∙ rw same refl
          | inr other ↦
              held i m
              ∙ ap (λ b. not (th == m) && b) (placed.others m other i ∙ first i m)
              ∙ rw other refl
        ],
      )

  -- On a sound wheel whose clock does not wrap within the sleep, ulmk_kern_sleep_cancel of a thread that
  -- ulmk_kern_sleep has put to sleep, for a time that fits, is accepted: the thread is ready and told
  -- that it was cancelled, its timer is off the wheel and has no callback, every other timer is where it
  -- was before the sleep, and no other thread is written.
  pub sleep_cancel-Cancelled :
      (hz cb : ℕ) (k : Sleepers D) (cur ms : ℕ)
      → cb ≢ 0
      → ms_to_ticks hz ms ≢ 0
      → k.timers.clk + ms_to_ticks hz ms < u64_mod
      → IsWheel D k.timers
      → let (rc, k') = sleep_cancel D (kern_sleep D hz cb k (some cur) ms).1 (some cur) in
        (rc ≡ ok)
        × Cancelled D k.timers k' cur
        × ((v : ℕ) → (cur == v) ≡ false → k'.thread v ≡ k.thread v)
  unfolding sleep_cancel timeout_disarm
  sleep_cancel-Cancelled hz cb k cur ms h g hw w =
      let asleep = (kern_sleep D hz cb k (some cur) ms).1 in
      let (rc, is_on, timers) = (sleep_outcome D hz cb k cur ms h).1 g in
      let ticks = ms_to_ticks hz ms in
      let fits = effective_lem D ticks ((ms_to_ticks_bounds hz ms).1 g).0 in
      let (off, wheel, others) =
        disarmed-others k.timers cur cb ticks fits (ground (arith, hw, g)) w in
      let awake : Sleeper = record {
        state = state_ready;
        reason = blocked_none;
        block_status = ecanceled;
      } in
      let woken = put_at_self asleep.thread cur awake in
      let off_wheel = λ (t : Timers D). (cancel D t cur).1 in
      rw (sleep_cancel, is_on)
        (
          refl,
          record {
            state = ap (λ (t : Sleeper). t.state) woken;
            reason = ap (λ (t : Sleeper). t.reason) woken;
            status = ap (λ (t : Sleeper). t.block_status) woken;
            off = ap (λ t. D.is_linked (off_wheel t).links cur) timers ∙ off;
            no_callback = put_at_self (off_wheel asleep.timers).cb cur 0;
            wheel =
                let u = subst (λ t. IsWheel D (off_wheel t)) (sym timers) wheel in
                record { tidy = u.tidy; words = u.words; covered = u.covered };
            others = λ i m. ap (λ t. holds D (off_wheel t).links i m) timers ∙ others i m;
          },
          λ v other.
              put_at_other asleep.thread cur v awake other ∙ sleep-others hz cb k cur ms v other,
        )
