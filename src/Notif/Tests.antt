-- ===== src/Notif/Tests.antt =====
-- Runs of notifications, and their theorems at concrete inputs.
use ulmk_microkernel.Base.{
  ℕ, ◌≡◌, ◌≢◌, refl, subst, true, false, none, some, [], arith, bit_and, ok, ◌==◌, if◌then◌else◌,
  Bool-cases, inl, inr,
}
use ulmk_microkernel.Notif.Object.{
  Thread, Kernel, notif_signal, notif_wait, wake_up, wake_events, state_ready, state_blocked,
  blocked_none,
}
use ulmk_microkernel.Notif.Signal.{Signalled, signal_refines}
use ulmk_microkernel.Notif.Wakeups.{IsServed, Serves}
use ulmk_microkernel.Notif.Listed.{is_waiting, IsListed}
use ulmk_microkernel.Notif.Runs.{signal, wait, done, next, IsAttended, Steps-IsAttended}
use ulmk_microkernel.Notif.Timed.{MatchesWait, notif_wait_timeout, timed_wait_agrees}
use ulmk_microkernel.Sleep.Timeout.{ms_to_ticks}
use ulmk_microkernel.Notif.Stranded.{second_wait_strands}

-- A thread that waits for bits 0 and 1 of the notification at 16.
abbrev waiting : Thread
waiting = record {
  state = state_blocked;
  reason = 4;
  waits_on = 16;
  waits_on_ep = 0;
  notif_wait_mask = 3;
  notif_received = 0;
  notif_bits_outptr = 2048;
  rn_result_outptr = 0;
  block_status = 0;
  syscall_wake_ret = 0;
  syscall_wake_ret_valid = false;
  timeout_cb = 0;
}

-- The notification at 16 has bit 2, and the thread at 32 waits on it; the others are ready.
abbrev kernel : Kernel
kernel = record {
  notif = λ n. record {
    active = true;
    bits = 4;
    waiter = if n == 16 then some 32 else none;
    wait_mask = 3;
  };
  thread = λ t.
      if t == 32 then waiting else record waiting { state = state_ready; reason = blocked_none };
  events = [];
}

wakes : ((notif_signal kernel 16 2).1.thread 32).notif_received ≡ 2
unfolding notif_signal wake_up wake_events
wakes = refl

keeps : ((notif_signal kernel 16 2).1.notif 16).bits ≡ 4
unfolding notif_signal wake_up wake_events
keeps = refl

kernel-IsServed : IsServed kernel
kernel-IsServed m w h = elim (Bool-cases (m == 16)) [
  | inr other ↦ absurd (ground (arith, other, h))
  | inl own ↦
      let at : 32 ≡ w = ground (arith, own, h) in
      subst (λ v. Serves (kernel.notif m) m (kernel.thread v)) at
        (record {
          live = ground arith;
          active = refl;
          blocked = refl;
          on = ground arith;
          unmet = refl;
        })
]

five_ticks : ms_to_ticks 100 50 ≢ 0
unfolding ms_to_ticks
five_ticks e = ground arith

signal_refines_example :
    let (rc, k) = notif_signal kernel 16 2 in
    Signalled kernel k 16 2 rc × ((m : ℕ) → (16 == m) ≡ false → k.notif m ≡ kernel.notif m)
signal_refines_example = signal_refines kernel 16 2 (omega arith) (omega arith)

kernel-IsListed : IsListed kernel
kernel-IsListed t h = ground (arith, h)

-- Thread 48 waits on the notification at 24, then that at 16 is signalled.
abbrev two_waiters : Kernel
two_waiters = (notif_wait kernel (some 48) 24 3 4096).1

abbrev after_signal : Kernel
after_signal = (notif_signal two_waiters 16 2).1

Steps-IsAttended_example :
    IsAttended after_signal
    × ((t : ℕ)
        → is_waiting (after_signal.thread t) ≡ true
        → bit_and
            (after_signal.notif (after_signal.thread t).waits_on).bits
            (after_signal.thread t).notif_wait_mask
          ≡ 0)
Steps-IsAttended_example =
    Steps-IsAttended kernel after_signal
      (next kernel two_waiters after_signal (wait kernel 48 24 3 4096 (λ e. ground (arith, e)) refl)
        (next two_waiters after_signal after_signal (signal two_waiters 16 2) (done after_signal)))
      (record { served = kernel-IsServed; listed = kernel-IsListed })

second_wait_strands_example :
    let (rc, k) = notif_wait kernel (some 48) 16 3 4096 in
    (rc ≡ ok)
    × ((k.notif 16).waiter ≡ some 48)
    × ((k.thread 48).state ≡ state_blocked)
    × ((k.thread 32).state ≡ state_blocked)
    × ((m : ℕ) → (k.notif m).waiter ≢ some 32)
second_wait_strands_example =
    second_wait_strands kernel 16 32 48 3 4096 kernel-IsServed refl (λ e. ground arith)
      (λ e. ground arith) refl

timed_wait_agrees_example :
    let (rc, k) = notif_wait_timeout 100 kernel (some 48) 24 3 4096 50 9000 true in
    let (rc₀, k₀) = notif_wait kernel (some 48) 24 3 4096 in
    (rc ≡ rc₀) × MatchesWait kernel k₀ k (some 48) 24 rc 50 9000
timed_wait_agrees_example = timed_wait_agrees 100 kernel (some 48) 24 3 4096 50 9000 five_ticks
