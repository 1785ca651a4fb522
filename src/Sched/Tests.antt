-- ===== src/Sched/Tests.antt =====
-- Runs of the scheduler, and its theorems at concrete inputs.
use ulmk_microkernel.Base.{
  ℕ, zero, suc, ◌+◌, ◌-◌, ◌^◌, ◌≤◌, ◌<◌, ◌≡◌, refl, sym, true, false, none, some, List, [], ◌∷◌,
  arith, ◌==◌, if◌then◌else◌, ==→eq,
}
use ulmk_microkernel.Bits.{bit, bit-pow}
use ulmk_microkernel.Dlist.Sample.{sample, no_links, insert_at, at-insert_in}
use ulmk_microkernel.Sched.Words.{CountsZeros}
use ulmk_microkernel.Sched.Bitmap.{
  SchedThread, RunQueues, init_cpus, bitmap_rt_init, bitmap_rt_enqueue, bitmap_rt_dequeue,
  bitmap_rt_pick_next, bitmap_rt_peek_next,
}
use ulmk_microkernel.Sched.Queue.{IsConsistent, queue_of, ready_list}
use ulmk_microkernel.Sched.Enqueue.{enqueue_refines}
use ulmk_microkernel.Sched.Runs.{Op, enqueue, dequeue, pick_next, run, spec_run}
use ulmk_microkernel.Sched.Start.{init-Holds, init-threads, init-unlinked, runs_refine}
use ulmk_microkernel.Sched.Fifo.{
  FifoQueue, SameOrder, InsertsAt, fifo_rt_enqueue, fifo_rt_dequeue, fifo_rt_peek_next,
  fifo_rt_pick_next, fifo_agrees,
}
use ulmk_microkernel.Sched.Core.{Percpu, Machine, sched_enqueue, kick_pending, trap_dispatch}
use ulmk_microkernel.Sched.Dispatch.{Dispatched, dispatch_refines}
use ulmk_microkernel.Sched.Kicks.{sent, remote_wake}

-- A count of leading zeros, from bit `n` down.
abbrev scan : ℕ → ℕ → ℕ
scan zero w = 31
scan (suc n) w = let rest = scan n w in if bit w (suc n) then 31 - suc n else rest

scan-pow : (n j : ℕ) → j ≤ n → scan n (2 ^ j) ≡ 31 - j
scan-pow zero j h = omega arith
scan-pow (suc n) j h = ground (arith, bit-pow j (suc n), ==→eq j (suc n), scan-pow n j)

abbrev clz : ℕ → ℕ
clz = scan 31

clz-CountsZeros : CountsZeros clz
clz-CountsZeros j h = scan-pow 31 j (omega arith)

-- Thread 6 goes before the others, which have the same priority; 8 is on the other CPU.
abbrev threads : ℕ → SchedThread
threads t = record {
  state = if t == 9 then 2 else 1;
  priority = if t == 6 then 1 else 40;
  cpu = if t == 8 then 1 else 0;
}

abbrev blank : RunQueues sample
blank = record { bitmap = λ _. []; links = no_links; thread = threads }

abbrev ops : List Op
ops =
    enqueue 5
    ∷ enqueue 6
    ∷ enqueue 7
    ∷ enqueue 8
    ∷ dequeue 7
    ∷ pick_next 0
    ∷ pick_next 0
    ∷ pick_next 0
    ∷ pick_next 1
    ∷ []

spec_picks : spec_run 2 threads (λ _. []) ops ≡ some 6 ∷ some 5 ∷ none ∷ some 8 ∷ []
unfolding spec_run
spec_picks = refl

small : (t : ℕ) → (threads t).priority < 256
small t = ground arith

runs_refine_example :
    run sample 2 clz (bitmap_rt_init sample 2 blank) ops ≡ spec_run 2 threads (λ _. []) ops
runs_refine_example =
    runs_refine sample 2 clz blank ops clz-CountsZeros (omega arith) (omega arith) (λ t. refl) small

abbrev empty_queues : RunQueues sample
empty_queues = bitmap_rt_init sample 2 blank

empty-IsConsistent : IsConsistent sample 2 empty_queues
empty-IsConsistent = (init-Holds sample 2 blank (λ t. refl) small).consistent

abbrev with_six : RunQueues sample
with_six = bitmap_rt_enqueue sample 2 empty_queues 6

abbrev cpus : ℕ → Percpu
cpus c = record {
  current = some (if c == 0 then 9 else 10);
  idle = some (20 + c);
  dead_for_cleanup = none;
  needs_resched = false;
  online = true;
  ipi_pending = 0;
}

abbrev machine : Machine sample
machine = record { queues = with_six; percpu = cpus; calls = [] }

with_six-cpu : queue_of 2 with_six.thread 9 ≡ 0
unfolding bitmap_rt_enqueue bitmap_rt_init init_cpus
with_six-cpu = refl

dispatch_refines_example :
    (m' : Machine sample) × (trap_dispatch sample 2 clz machine 0 true false ≡ some m')
    × Dispatched sample 2 0 9 with_six m'
dispatch_refines_example =
    dispatch_refines sample 2 clz machine 0 9 20 true false clz-CountsZeros (omega arith)
      (omega arith) (enqueue_refines sample 2 empty_queues 6 empty-IsConsistent).2 refl refl
      with_six-cpu

abbrev fresh_machine : Machine sample
fresh_machine = record {
  queues = record blank {
    thread = λ t. record (threads t) { priority = if t == 8 then 3 else 40 };
  };
  percpu = cpus;
  calls = [];
}

remote_wake_example :
    (((sched_enqueue sample 2 fresh_machine 0 8).percpu 1).needs_resched ≡ true)
    × (sent 1 (kick_pending sample 2 (sched_enqueue sample 2 fresh_machine 0 8) 0).calls ≡ 0 + 1)
remote_wake_example =
    remote_wake sample 2 fresh_machine 0 8 10 refl (omega arith) refl refl refl (omega arith)

insert_at-InsertsAt : InsertsAt sample insert_at
insert_at-InsertsAt s l n cond d m = at-insert_in l n m cond s.on

abbrev one_list : FifoQueue sample
one_list = record { links = no_links; thread = threads }

abbrev one_cpu_queues : RunQueues sample
one_cpu_queues = bitmap_rt_init sample 1 blank

one_list-SameOrder : SameOrder sample 1 0 one_list one_cpu_queues
one_list-SameOrder =
    let h = init-Holds sample 1 blank (λ t. refl) small in
    record {
      consistent = h.consistent;
      same_threads = sym (init-threads sample 1 blank (λ t. refl));
      one_cpu = λ t. ground arith;
      order = sym (h.lists 0);
      linked = λ t. refl;
    }

fifo_agrees_example :
    (sample.nodes (fifo_rt_enqueue sample insert_at one_list 6).links 0
      ≡ ready_list sample (bitmap_rt_enqueue sample 1 one_cpu_queues 6) 0)
    × (sample.nodes (fifo_rt_dequeue sample one_list 7).links 0
        ≡ ready_list sample (bitmap_rt_dequeue sample 1 one_cpu_queues 7) 0)
    × (fifo_rt_peek_next sample one_list ≡ bitmap_rt_peek_next sample 1 clz one_cpu_queues 0)
    × (fifo_rt_pick_next sample one_list ≡ (bitmap_rt_pick_next sample 1 clz one_cpu_queues 0).0)
    × ((v : ℕ)
        → fifo_rt_pick_next sample one_list ≡ some v
        → sample.nodes (fifo_rt_dequeue sample one_list v).links 0
          ≡ ready_list sample (bitmap_rt_pick_next sample 1 clz one_cpu_queues 0).1 0)
fifo_agrees_example =
    fifo_agrees sample 1 clz 0 one_list one_cpu_queues 6 7 insert_at clz-CountsZeros (omega arith)
      (omega arith) insert_at-InsertsAt one_list-SameOrder (λ l. refl)
      (init-unlinked sample 1 blank (λ t. refl) 6)
