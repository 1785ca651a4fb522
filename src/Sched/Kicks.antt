-- ===== src/Sched/Kicks.antt =====
-- The interrupts that kernel/sched/sched.c sends to other CPUs.
use ulmk_microkernel.Base.{
  ℕ, zero, suc, ◌+◌, ◌%◌, ◌^◌, ◌<◌, ◌≡◌, refl, ◌∙◌, sym, ap, subst, true, false, not, ◌&&◌, some,
  List, [], ◌∷◌, arith, ◌==◌, if◌then◌else◌, ltb, leb, put_at, put_at_self, bit_or, bit_and,
  Bool-cases, inl, inr, ==→eq,
}
use ulmk_microkernel.Bits.{bit, bit_and-pow, bit-set}
use ulmk_microkernel.Bits.Bounds.{bit_of_zero}
use ulmk_microkernel.Dlist.{Dlist}
use ulmk_microkernel.Sched.Bitmap.{bitmap_rt_enqueue}
use ulmk_microkernel.Sched.Enqueue.{enqueue-keeps}
use ulmk_microkernel.Sched.Core.{
  Machine, Percpu, percpu_of, SchedCall, ensure_ctx, mpu_switch, reap, send_ipi, ctx_switch,
  sched_switch, mark_ready, kick_from, kick_pending, mark_preempt_if_higher, sched_enqueue,
  runs_below,
}

-- How many interrupts were sent to the CPU?
abbrev pub sent : ℕ → List SchedCall → ℕ
sent c [] = 0
sent c (send_ipi d ∷ calls) = let rest = sent c calls in if c == d then suc rest else rest
sent c (ensure_ctx t ∷ calls) = sent c calls
sent c (mpu_switch t ∷ calls) = sent c calls
sent c (reap t ∷ calls) = sent c calls
sent c (ctx_switch t u ∷ calls) = sent c calls
sent c (sched_switch t u ∷ calls) = sent c calls
sent c (mark_ready ∷ calls) = sent c calls

-- One for a CPU in the loop's range whose bit is set, none for another.
abbrev owed : ℕ → ℕ → ℕ → ℕ → ℕ
owed pending n cpu c = if leb cpu c && ltb c (cpu + n) && bit pending c then 1 else 0

sent-kick_from :
    (pending n cpu c : ℕ) (calls : List SchedCall)
    → sent c (kick_from pending n cpu calls) ≡ sent c calls + owed pending n cpu c
unfolding kick_from
sent-kick_from pending zero cpu c calls = ground arith
sent-kick_from pending (suc n) cpu c calls = elim (Bool-cases (bit_and pending (2 ^ cpu) == 0)) [
  | inl clear ↦ rw clear (
      ground (
        arith,
        sent-kick_from pending n (cpu + 1) c calls,
        bit_and-pow pending cpu,
        ap (bit pending),
        ==→eq c cpu,
      ))
  | inr set_bit ↦ rw set_bit (
      ground (
        arith,
        sent-kick_from pending n (cpu + 1) c (send_ipi cpu ∷ calls),
        bit_and-pow pending cpu,
        ap (bit pending),
        ==→eq c cpu,
      ))
]

-- ulmk_sched_kick_pending sends one interrupt to each CPU whose bit is pending, none to another, and
-- leaves none pending.
pub kick_refines :
    (D : Dlist) (nr_cpus : ℕ) (m : Machine D) (me c : ℕ)
    → let m' = kick_pending D nr_cpus m me in
      let pending = (m.percpu (percpu_of nr_cpus me)).ipi_pending in
      (sent c m'.calls ≡ sent c m.calls + (if ltb c nr_cpus && bit pending c then 1 else 0))
      × ((m'.percpu (percpu_of nr_cpus me)).ipi_pending ≡ 0)
unfolding kick_pending
kick_refines D nr_cpus m me c =
    let pending = (m.percpu (percpu_of nr_cpus me)).ipi_pending in
    elim (Bool-cases (pending == 0)) [
      | inl quiet ↦
          rw (kick_pending, quiet)
            (ground (arith, bit_of_zero pending c quiet), ==→eq pending 0 quiet)
      | inr some_left ↦
          rw (kick_pending, some_left)
            (
              ground (arith, sent-kick_from pending nr_cpus 0 c m.calls),
              ap (λ (p : Percpu). p.ipi_pending) (put_at_self m.percpu (percpu_of nr_cpus me) _),
            )
    ]

-- A write that keeps the flag of a CPU keeps the flags of all.
same_flag :
    (f : ℕ → Percpu) (a b : ℕ) (v : Percpu)
    → v.needs_resched ≡ (f a).needs_resched
    → (put_at f a v b).needs_resched ≡ (f b).needs_resched
same_flag f a b v h = elim (Bool-cases (a == b)) [
  | inl e ↦ rw e (h ∙ ap (λ c. (f c).needs_resched) (==→eq a b e))
  | inr e ↦ rw e refl
]

-- A thread of another CPU that goes before the current one there: that CPU is to reschedule, and an
-- interrupt to it is pending here.
marked-away :
    (D : Dlist) (nr_cpus : ℕ) (m : Machine D) (me t : ℕ)
    → ((m.queues.thread t).cpu == me % 256) ≡ false
    → (m.queues.thread t).cpu < nr_cpus
    → (m.percpu (m.queues.thread t).cpu).online ≡ true
    → runs_below D m.queues t (m.percpu (m.queues.thread t).cpu).current ≡ true
    → let m' = mark_preempt_if_higher D nr_cpus m me t in
      let cpu = (m.queues.thread t).cpu in
      ((m'.percpu cpu).needs_resched ≡ true)
      × (bit (m'.percpu (percpu_of nr_cpus me)).ipi_pending cpu ≡ true)
      × (m'.calls ≡ m.calls)
unfolding mark_preempt_if_higher
marked-away D nr_cpus m me t away there online higher =
    let cpu = (m.queues.thread t).cpu in
    let here = percpu_of nr_cpus me in
    let target : percpu_of nr_cpus cpu ≡ cpu = ground arith in
    let higher_there = ap (λ c. runs_below D m.queues t (m.percpu c).current) target ∙ higher in
    let remote : (not (cpu == me % 256) && (m.percpu (percpu_of nr_cpus cpu)).online) ≡ true =
      rw (away, target) online in
    let flagged =
      put_at m.percpu (percpu_of nr_cpus cpu)
        (record (m.percpu (percpu_of nr_cpus cpu)) { needs_resched = true }) in
    let pending = bit-set (flagged here).ipi_pending cpu cpu in
    let own =
      put_at_self flagged here
        (record (flagged here) { ipi_pending = bit_or (flagged here).ipi_pending (2 ^ cpu) }) in
    let shown : (flagged cpu).needs_resched ≡ true =
      ap
        (λ (c : ℕ).
          (put_at m.percpu c (record (m.percpu c) { needs_resched = true }) cpu).needs_resched)
        target
      ∙ ap (λ (p : Percpu). p.needs_resched) (put_at_self m.percpu cpu _) in
    rw (mark_preempt_if_higher, higher_there, remote)
      (
        same_flag flagged here cpu _ refl ∙ shown,
        ap (λ (p : Percpu). bit p.ipi_pending cpu) own ∙ pending ∙ ground arith,
        refl,
      )

-- ulmk_sched_enqueue of a thread of another CPU that is online, with a lower priority number than
-- the thread that runs there, tells that CPU to reschedule; and the next ulmk_sched_kick_pending
-- sends it an interrupt.
pub remote_wake :
    (D : Dlist) (nr_cpus : ℕ) (m : Machine D) (me t cur : ℕ)
    → ((m.queues.thread t).cpu == me % 256) ≡ false
    → (m.queues.thread t).cpu < nr_cpus
    → (m.percpu (m.queues.thread t).cpu).online ≡ true
    → (m.percpu (m.queues.thread t).cpu).current ≡ some cur
    → (t == cur) ≡ false
    → (m.queues.thread t).priority < (m.queues.thread cur).priority
    → let m' = sched_enqueue D nr_cpus m me t in
      let cpu = (m.queues.thread t).cpu in
      ((m'.percpu cpu).needs_resched ≡ true)
      × (sent cpu (kick_pending D nr_cpus m' me).calls ≡ sent cpu m.calls + 1)
unfolding sched_enqueue
remote_wake D nr_cpus m me t cur away there online current other higher =
    let keeps = enqueue-keeps D nr_cpus m.queues t in
    let queued = record m { queues = bitmap_rt_enqueue D nr_cpus m.queues t } in
    let cpu : (queued.queues.thread t).cpu ≡ (m.queues.thread t).cpu = (keeps t).1 in
    let first : runs_below D queued.queues t (some cur) ≡ true =
      rw ((keeps t).0, (keeps cur).0, other) (ground arith) in
    let there_first =
      ap (λ c. runs_below D queued.queues t (m.percpu c).current) cpu
      ∙ ap (runs_below D queued.queues t) current
      ∙ first in
    let (flag, pending, same) =
      marked-away D nr_cpus queued me t (ap (λ c. c == me % 256) cpu ∙ away)
        (subst (λ c. c < nr_cpus) (sym cpu) there) (ap (λ c. (m.percpu c).online) cpu ∙ online)
        there_first in
    let m' = mark_preempt_if_higher D nr_cpus queued me t in
    let told = kick_refines D nr_cpus m' me (m.queues.thread t).cpu in
    let bit_here =
      subst (λ c. bit (m'.percpu (percpu_of nr_cpus me)).ipi_pending c ≡ true) cpu pending in
    let known = ap (sent (m.queues.thread t).cpu) same in
    (
      subst (λ c. (m'.percpu c).needs_resched ≡ true) cpu flag,
      told.0 ∙ rw (bit_here, known) (ground arith),
    )
