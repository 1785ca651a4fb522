-- ===== src/Notif/Waking.antt =====
-- What notif_signal_impl does with the thread that it wakes.
use ulmk_microkernel.Base.{
  ℕ, ◌≡◌, refl, Bool, true, false, List, ◌∷◌, ◌≢◌, if◌then◌else◌, ==→ne, ne→==, ◌==◌, arith,
  Bool-cases, eq→==, inl, inr,
}
use ulmk_microkernel.Notif.Object.{
  Thread, Event, enqueue, recv_queue_remove, timeout_disarm, kick_pending, store_bits, store_result,
  wake_up, wake_events, state_ready, blocked_none, blocked_ipc_or_notif, notif_invalid, ep_invalid,
}

-- Events are added to those of `es`, the latest first.
pub data Grown (es : List Event) : List Event → Type 0 where
  same : Grown es es
  more : (x : Event) (xs : List Event) → Grown es xs → Grown es (x ∷ xs)

-- The event `e` is among those that are added to `es`.
pub data Since (es : List Event) (e : Event) : List Event → Type 0 where
  now : (xs : List Event) → Grown es xs → Since es e (e ∷ xs)
  before : (x : Event) (xs : List Event) → Since es e xs → Since es e (x ∷ xs)

-- What a woken thread keeps and what not.
pub record Woken (t t' : Thread) : Type 0 where
  pub ready : t'.state ≡ state_ready
  pub unblocked : t'.reason ≡ blocked_none
  pub no_timeout : t'.timeout_cb ≡ 0
  pub kept : (t'.notif_wait_mask ≡ t.notif_wait_mask) × (t'.block_status ≡ t.block_status)
  -- A thread that waited for a message as well is on no endpoint any more and returns 1.
  pub off_endpoint :
      t.reason ≡ blocked_ipc_or_notif
      → (t'.waits_on ≡ notif_invalid)
        × (t'.waits_on_ep ≡ ep_invalid)
        × (t'.syscall_wake_ret ≡ 1)
        × (t'.syscall_wake_ret_valid ≡ true)

-- What happens besides: the thread is queued, and what it waited with is told and undone.
pub record Told (t : Thread) (w got : ℕ) (es es' : List Event) : Type 0 where
  pub queued : Since es (enqueue w) es'
  pub stored :
      t.reason ≢ blocked_ipc_or_notif
      → t.notif_bits_outptr ≢ 0
      → Since es (store_bits t.notif_bits_outptr got) es'
  pub result_stored :
      t.reason ≡ blocked_ipc_or_notif
      → t.rn_result_outptr ≢ 0
      → Since es (store_result t.rn_result_outptr got) es'
  pub off_queue : t.reason ≡ blocked_ipc_or_notif → Since es (recv_queue_remove w) es'
  pub disarmed : t.timeout_cb ≢ 0 → Since es (timeout_disarm w) es'
  pub switched : Since es kick_pending es'

pub wake_up_lem :
    (w : Thread) (delivered : ℕ)
    → ((wake_up w delivered).state ≡ state_ready)
      × ((wake_up w delivered).notif_received ≡ delivered)
unfolding wake_up
wake_up_lem w delivered = (ground arith, ground arith)

pub wake_up-Woken : (w : Thread) (delivered : ℕ) → Woken w (wake_up w delivered)
unfolding wake_up
wake_up-Woken w delivered = elim (Bool-cases (w.reason == blocked_ipc_or_notif)) [
  | inl both ↦ rw both (record {
    ready = refl;
    unblocked = refl;
    no_timeout = refl;
    kept = (refl, refl);
    off_endpoint = λ h. (refl, refl, refl, refl);
  })
  | inr alone ↦ rw alone (record {
    ready = refl;
    unblocked = refl;
    no_timeout = refl;
    kept = (refl, refl);
    off_endpoint = λ h. absurd (==→ne _ _ alone h);
  })
]

module _ (es : List Event) (off result bits : Event) where
  -- What is told before the thread is queued: whether it waited for a message as well, and whether it
  -- asked for no result and for no bits.
  abbrev told : Bool → Bool → Bool → List Event
  told both silent no_bits =
      if both
      then (if silent then off ∷ es else result ∷ off ∷ es)
      else (if no_bits then es else bits ∷ es)

  told-Grown : (both silent no_bits : Bool) → Grown es (told both silent no_bits)
  told-Grown true true no_bits = more off es same
  told-Grown true false no_bits = more result (off ∷ es) (more off es same)
  told-Grown false silent true = same
  told-Grown false silent false = more bits es same

  told-bits : (silent : Bool) → Since es bits (told false silent false)
  told-bits silent = now es same

  told-result : (no_bits : Bool) → Since es result (told true false no_bits)
  told-result no_bits = now (off ∷ es) (more off es same)

  told-off : (silent no_bits : Bool) → Since es off (told true silent no_bits)
  told-off true no_bits = now es same
  told-off false no_bits = before result (off ∷ es) (now es same)

after :
    (es : List Event) (e : Event) (w : ℕ) (untimed : Bool) (xs : List Event)
    → Since es e xs
    → Since es e (if untimed then kick_pending ∷ xs else kick_pending ∷ timeout_disarm w ∷ xs)
after es e w true xs h = before kick_pending xs h
after es e w false xs h =
    before kick_pending (timeout_disarm w ∷ xs) (before (timeout_disarm w) xs h)

kicked :
    (es : List Event) (w : ℕ) (untimed : Bool) (xs : List Event)
    → Grown es xs
    → Since es kick_pending
        (if untimed then kick_pending ∷ xs else kick_pending ∷ timeout_disarm w ∷ xs)
kicked es w true xs h = now xs h
kicked es w false xs h = now (timeout_disarm w ∷ xs) (more (timeout_disarm w) xs h)

pub wake_events-Told :
    (t : Thread) (w got : ℕ) (es : List Event) → Told t w got es (wake_events t w got es)
unfolding wake_events
wake_events-Told t w got es =
    let both = t.reason == blocked_ipc_or_notif in
    let silent = t.rn_result_outptr == 0 in
    let no_bits = t.notif_bits_outptr == 0 in
    let result = store_result t.rn_result_outptr got in
    let bits = store_bits t.notif_bits_outptr got in
    let said = told es (recv_queue_remove w) result bits both silent no_bits in
    let grown = told-Grown es (recv_queue_remove w) result bits both silent no_bits in
    let later = λ (e : Event) (h : Since es e said).
      after es e w (t.timeout_cb == 0) (enqueue w ∷ said) (before (enqueue w) said h) in
    record {
      queued = after es (enqueue w) w (t.timeout_cb == 0) (enqueue w ∷ said) (now said grown);
      stored = λ h g.
          later bits
            (rw (ne→== _ _ h, ne→== _ 0 g) (told-bits es (recv_queue_remove w) result bits silent));
      result_stored = λ h g. later result (
          rw (eq→== _ _ h, ne→== _ 0 g) (told-result es (recv_queue_remove w) result bits no_bits));
      off_queue = λ h.
          later (recv_queue_remove w)
            (rw (eq→== _ _ h) (told-off es (recv_queue_remove w) result bits silent no_bits));
      disarmed = λ h. rw (ne→== _ 0 h) (
          before kick_pending (timeout_disarm w ∷ enqueue w ∷ said)
            (now (enqueue w ∷ said) (more (enqueue w) said grown)));
      switched = kicked es w (t.timeout_cb == 0) (enqueue w ∷ said) (more (enqueue w) said grown);
    }
