-- ===== src/Notif/Stranded.antt =====
-- What becomes of a waiter when a second thread waits on the same notification.
use ulmk_microkernel.Base.{
  put_at, put_at_self, put_at_other, ℕ, ◌≡◌, ◌≢◌, sym, ◌∙◌, ap, some, bit_and, ok, refl, ◌==◌,
  Bool-cases, ==→eq, eq→==, ne→==, inl, inr,
}
use ulmk_microkernel.Notif.Object.{Notif, Thread, Kernel, notif_wait, state_blocked}
use ulmk_microkernel.Notif.Signal.{from_some}
use ulmk_microkernel.Notif.Wakeups.{IsServed, alone_of}

-- Where every waiter is blocked on a live notification that has no bit it waits for, a thread that
-- waits on a notification that already has another waiter, for bits that are not there and with a place
-- for them, blocks and becomes the waiter; the other stays blocked, and no notification has it as its
-- waiter any more.
pub second_wait_strands :
    (k : Kernel) (id first second mask out : ℕ)
    → IsServed k
    → (k.notif id).waiter ≡ some first
    → second ≢ first
    → out ≢ 0
    → bit_and (k.notif id).bits mask ≡ 0
    → let (rc, k') = notif_wait k (some second) id mask out in
      (rc ≡ ok)
      × ((k'.notif id).waiter ≡ some second)
      × ((k'.thread second).state ≡ state_blocked)
      × ((k'.thread first).state ≡ state_blocked)
      × ((m : ℕ) → (k'.notif m).waiter ≢ some first)
unfolding notif_wait
second_wait_strands k id first second mask out s own other an_out unmet =
    let was = s id first own in
    let o : Notif = record (k.notif id) { waiter = some second; wait_mask = mask } in
    rw (notif_wait, was.live, was.active, ne→== out 0 an_out, eq→== _ 0 unmet)
      (
        refl,
        ap (λ (p : Notif). p.waiter) (put_at_self k.notif id o),
        ap (λ (t : Thread). t.state) (put_at_self k.thread second _),
        ap (λ (t : Thread). t.state)
              (put_at_other k.thread second first _ (ne→== second first other))
            ∙ was.blocked,
        λ m h. elim (Bool-cases (id == m)) [
          | inl same ↦
              let taken : some second ≡ some first =
                ap (λ (p : Notif). p.waiter) (sym (put_at_self k.notif id o))
                ∙ ap (λ (j : ℕ). (put_at k.notif id o j).waiter) (==→eq id m same)
                ∙ h in
              other (ap (from_some 0) taken)
          | inr elsewhere ↦
              alone_of k id first s was.on m elsewhere
                (ap (λ (o : Notif). o.waiter) (sym (put_at_other k.notif id m o elsewhere)) ∙ h)
        ],
      )
