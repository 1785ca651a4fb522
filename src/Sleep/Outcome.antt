-- ===== src/Sleep/Outcome.antt =====
-- How long a sleep lasts, and what a sleep does.
use ulmk_microkernel.Base.{
  put_at, ℕ, ◌+◌, ◌*◌, ◌/◌, ◌≤◌, ◌<◌, ◌≡◌, ◌≢◌, ◌⊎◌, refl, sym, ◌∙◌, true, some, ◌==◌, arith,
  Bool-cases, eq→==, ne→==, inl, inr, ok, einval,
}
use ulmk_microkernel.Dlist.{Dlist}
use ulmk_microkernel.Timer.Index.{timeout_max}
use ulmk_microkernel.Timer.Wheel.{Timers, add, cancel}
use ulmk_microkernel.Timer.Add.{add_outcome, added, effective}
use ulmk_microkernel.Sleep.Timeout.{ms_to_ticks, timeout_arm, Sleepers, is_asleep, kern_sleep}

-- ulmk_ms_to_ticks gives the least number of ticks, and at least one, that lasts `ms` milliseconds; it
-- gives 0 just when that is more than ULMK_TIMER_TIMEOUT_MAX.
pub ms_to_ticks_bounds :
    (hz ms : ℕ)
    → let ticks = ms_to_ticks hz ms in
      (ticks ≡ 0 → timeout_max * 1000 < ms * hz)
      × (ticks ≢ 0
          → (ticks ≤ timeout_max)
            × (ms * hz ≤ ticks * 1000)
            × ((ticks ≡ 1) ⊎ (ticks * 1000 < ms * hz + 1000)))
unfolding ms_to_ticks
ms_to_ticks_bounds hz ms = elim (Bool-cases ((ms * hz + 999) / 1000 == 0)) [
  | inl none_left ↦
      (λ e. ground (arith, e), λ h. (ground (arith, h), ground (arith, h), inl (ground (arith, h))))
  | inr some_left ↦
      (λ e. ground (arith, e), λ h. (ground (arith, h), ground (arith, h), inr (ground (arith, h))))
]

put_self : (f : ℕ → ℕ) (a v : ℕ) → put_at f a v a ≡ v
put_self f a v = rw (eq→== a a refl) refl

module _ (D : Dlist) where
  -- The wheel just before ulmk_timeout_arm adds the timer.
  abbrev pub rearmed : Timers D → ℕ → ℕ → Timers D
  rearmed t th cb = let off = (cancel D t th).1 in record off { cb = put_at off.cb th cb }

  arm_add :
      (hz : ℕ) (t : Timers D) (th ms cb : ℕ)
      → cb ≢ 0
      → ms_to_ticks hz ms ≢ 0
      → timeout_arm D hz t th ms cb ≡ add D (rearmed t th cb) th (ms_to_ticks hz ms)
  unfolding timeout_arm
  arm_add hz t th ms cb h g = rw (timeout_arm, ne→== cb 0 h, ne→== (ms_to_ticks hz ms) 0 g) refl

  pub effective_lem : (ticks : ℕ) → ticks ≤ timeout_max → effective ticks ≤ timeout_max
  effective_lem ticks h = ground arith

  -- ulmk_timeout_arm of a callback that is not NULL fails only for a time that is too long.
  arm_lem :
      (hz : ℕ) (t : Timers D) (th ms cb : ℕ)
      → cb ≢ 0
      → ms_to_ticks hz ms ≢ 0
      → timeout_arm D hz t th ms cb ≡ (ok, added D (rearmed t th cb) th (ms_to_ticks hz ms))
  arm_lem hz t th ms cb h g =
      arm_add hz t th ms cb h g
      ∙ (add_outcome D (rearmed t th cb) th (ms_to_ticks hz ms)).1
          (λ e. h (sym (put_self (cancel D t th).1.cb th cb) ∙ e))
          (effective_lem (ms_to_ticks hz ms) ((ms_to_ticks_bounds hz ms).1 g).0)

  sleep_armed :
      (hz cb : ℕ) (k : Sleepers D) (cur ms : ℕ) (timers : Timers D)
      → ms_to_ticks hz ms ≢ 0
      → timeout_arm D hz k.timers cur ms cb ≡ (ok, timers)
      → let (rc, k') = kern_sleep D hz cb k (some cur) ms in
        (rc ≡ ok) × (is_asleep D k' cur ≡ true) × (k'.timers ≡ timers)
  unfolding kern_sleep
  sleep_armed hz cb k cur ms timers g armed =
      rw (kern_sleep, ne→== _ 0 g, armed) (refl, ground arith, refl)

  -- ulmk_kern_sleep refuses a time of more than ULMK_TIMER_TIMEOUT_MAX ticks, changing nothing. Every
  -- other sleep of a thread is accepted: the thread is blocked in the sleep, and its timer, taken off
  -- the wheel first, has been added again for the ticks of the time.
  pub sleep_outcome :
      (hz cb : ℕ) (k : Sleepers D) (cur ms : ℕ)
      → cb ≢ 0
      → (ms_to_ticks hz ms ≡ 0 → kern_sleep D hz cb k (some cur) ms ≡ (einval, k))
        × (ms_to_ticks hz ms ≢ 0
            → let (rc, k') = kern_sleep D hz cb k (some cur) ms in
              (rc ≡ ok)
              × (is_asleep D k' cur ≡ true)
              × (k'.timers ≡ added D (rearmed k.timers cur cb) cur (ms_to_ticks hz ms)))
  unfolding kern_sleep
  sleep_outcome hz cb k cur ms h = (
    λ e. rw (kern_sleep, eq→== _ 0 e) refl,
    λ g. sleep_armed hz cb k cur ms _ g (arm_lem hz k.timers cur ms cb h g),
  )
