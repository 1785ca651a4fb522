-- ===== src/Irq/Tests.antt =====
-- Runs of the interrupt bindings, and their theorems at concrete inputs.
use ulmk_microkernel.Base.{◌≡◌, refl, false, some, [], ◌∷◌, arith, ok}
use ulmk_microkernel.Irq.Table.{
  Irq, cleared_binding, plain_binding, attached_binding, irq_bind, irq_detach, irq_enable,
  irq_dispatch, binding_by_srpn, binding_add, update_binding, signal_notif, src_disable, src_enable,
}
use ulmk_microkernel.Irq.Bindings.{IsSingle, Bound, bind_refines, Detached, detach_refines}

-- Interrupt 7 has a function attached, and one entry is free.
abbrev irqs : Irq
irqs = record {
  table = attached_binding 7 64 512 0 32 ∷ cleared_binding ∷ [];
  attach = record { in_irq_attach = false; irq_attach_owner = 0; irq_attach_srpn = 0 };
  calls = [];
}

bind_run : (irq_bind irqs 9 (some 80) 2).0 ≡ ok
unfolding irq_bind binding_by_srpn binding_add
bind_run = refl

dispatch_run :
    (irq_dispatch
      (irq_enable (record irqs { table = plain_binding 9 80 2 ∷ [] }) 9).1
      9
      false).calls
    ≡ signal_notif 80 4 ∷ src_disable 9 ∷ src_enable 9 ∷ []
unfolding irq_dispatch irq_enable binding_by_srpn update_binding
dispatch_run = refl

irqs-IsSingle : IsSingle irqs.table
unfolding binding_by_srpn
irqs-IsSingle = (λ h. refl, (λ h. absurd (ground (arith, h)), _))

bind_refines_example :
    let (rc, t) = irq_bind irqs 9 (some 80) 2 in Bound irqs t 9 (some 80) 2 rc × IsSingle t.table
bind_refines_example = bind_refines irqs 9 2 (some 80) irqs-IsSingle

detach_refines_example : let (rc, t) = irq_detach irqs 7 in Detached irqs t 7 rc × IsSingle t.table
detach_refines_example = detach_refines irqs 7 irqs-IsSingle
