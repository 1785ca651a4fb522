-- ===== src/Ep/Tests.antt =====
-- The theorems about endpoints at concrete inputs.
use ulmk_microkernel.Base.{
  ℕ, ◌+◌, ◌≡◌, refl, Bool, true, false, none, some, [], ◌∷◌, arith, ◌==◌, if◌then◌else◌, ok,
}
use ulmk_microkernel.Dlist.Sample.{Links, sample, no_links}
use ulmk_microkernel.Ep.Object.{IpcThread, Ipc}
use ulmk_microkernel.Ep.Calls.{ep_call, ep_recv, ep_reply}
use ulmk_microkernel.Ep.Teardown.{ep_destroy}
use ulmk_microkernel.Ep.Roundtrip.{Parties, Exchanged, with_reply, call_roundtrip}
use ulmk_microkernel.Ep.Destroy.{Destroyed, destroy_refines}
use ulmk_microkernel.Ep.Boost.{nested_boost_stays}
use ulmk_microkernel.Ep.Sides.{IsOneSided}
use ulmk_microkernel.Ep.Runs.{done, more, recv, call, Steps-IsOneSided}

-- Thread 20 has priority 10, thread 21 priority 3, the others 30; `waits` says who is blocked.
abbrev some_thread : ℕ → Bool → IpcThread
some_thread t waits = record {
  state = if waits then 3 else 2;
  priority = if t == 20 then 10 else (if t == 21 then 3 else 30);
  saved_prio = 0;
  reason = if waits then 2 else 0;
  waits_on_ep = if waits then 5 else 0;
  waits_on = 0;
  notif_wait_mask = 0;
  ipc_msg = 0;
  ipc_sender = 0;
  msg_outptr = if waits then 100 + t else 0;
  sender_outptr = 0;
  rn_result_outptr = 0;
  block_status = 0;
}

-- Endpoint 5 is open.
abbrev with_links : Links → Bool → Ipc sample
with_links links waits = record {
  active = λ e. e == 5;
  links = links;
  thread = λ t. some_thread t (if t == 20 then false else waits);
  registered = λ t. true;
  notif = λ _. record { active = false; bits = 0; waiter = none; wait_mask = 0 };
  msg_at = λ x. 1000 + x;
  tid_at = λ _. 0;
  result_at = λ _. record { is_notif = false; msg = 0; sender = 0; notif_bits = 0 };
  events = [];
}

abbrev idle : Ipc sample
idle = with_links no_links false

-- Threads 21 and 22 wait to send.
abbrev backlog : Ipc sample
backlog = with_links (record { on = (10, 21) ∷ (10, 22) ∷ []; stale = λ _. false }) true

abbrev parties : Parties
parties = record { a = 21; b = 20; ma = 300; mb = 400; sb = 500 }

call_roundtrip_example :
    let called = ep_call sample idle (some 21) 5 300 in
    let received = ep_recv sample called.1 (some 20) 5 400 500 in
    let received' = ep_recv sample idle (some 20) 5 400 500 in
    let called' = ep_call sample received'.1 (some 21) 5 300 in
    Exchanged sample idle 5 77 parties called received
      (ep_reply sample (with_reply sample received.1 600 77) (some 20) (received.1.tid_at 500) 600)
    × Exchanged sample idle 5 77 parties received' called'
        (ep_reply sample (with_reply sample called'.1 600 77) (some 20) (called'.1.tid_at 500) 600)
call_roundtrip_example = call_roundtrip sample idle 5 600 77 parties (record {
  usable = (refl, refl);
  no_sender = refl;
  no_receiver = refl;
  two = refl;
  real_a = refl;
  alive_a = refl;
  real_ma = refl;
  real_mb = refl;
  real_sb = refl;
  real_reply = refl;
  free_a = λ l. refl;
  free_b = λ l. refl;
})

destroy_refines_example :
    ((ep_destroy sample 2 backlog 5).0 ≡ ok)
    × Destroyed sample backlog (ep_destroy sample 2 backlog 5).1 5
destroy_refines_example =
    destroy_refines sample 2 backlog 5 (refl, refl) (omega arith) (omega arith)

nested_boost_stays_example :
    let r1 = ep_recv sample backlog (some 20) 5 400 500 in
    let r2 = ep_recv sample r1.1 (some 20) 5 400 500 in
    let r3 = ep_reply sample r2.1 (some 20) 22 600 in
    let r4 = ep_reply sample r3.1 (some 20) 21 600 in
    (r1.0 ≡ ok) × (r2.0 ≡ ok) × (r3.0 ≡ ok) × (r4.0 ≡ ok) × ((r4.1.thread 20).priority ≡ 3)
nested_boost_stays_example = nested_boost_stays sample backlog 20 21 22 5 400 500 600 (record {
  usable = (refl, refl);
  queued = refl;
  apart = refl;
  first = record {
    caller = record { real = refl; alive = refl; listed = refl; calls = refl };
    other = refl;
  };
  second = record {
    caller = record { real = refl; alive = refl; listed = refl; calls = refl };
    other = refl;
  };
  higher = omega arith;
  real_mb = refl;
  real_reply = refl;
})

idle-IsOneSided : IsOneSided sample idle.links
idle-IsOneSided = record { sides = λ ep. refl; listed = λ t h. absurd (ground arith) }

-- Thread 20 receives, then thread 21 calls.
abbrev waiting : Ipc sample
waiting = (ep_recv sample idle (some 20) 5 400 500).1

abbrev answered : Ipc sample
answered = (ep_call sample waiting (some 21) 5 300).1

Steps-IsOneSided_example : IsOneSided sample answered.links
unfolding ep_recv
Steps-IsOneSided_example =
    Steps-IsOneSided sample idle answered
      (more (more done (recv 20 5 400 500 refl)) (call 21 5 300 refl)) idle-IsOneSided
