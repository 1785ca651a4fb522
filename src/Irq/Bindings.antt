-- ===== src/Irq/Bindings.antt =====
-- The table of bindings as a map from interrupts to bindings.
use ulmk_microkernel.Base.{
  ℕ, ◌≡◌, ◌≢◌, ◌⊎◌, refl, sym, ◌∙◌, ap, subst, Bool, true, false, ◌&&◌, ◌||◌, Option, none, some,
  List, [], ◌∷◌, ltb, ◌==◌, if◌then◌else◌, arith, Bool-cases, Option-cases, ==→eq, ==→ne, inl, inr,
  ok, einval, enospc,
}
use ulmk_microkernel.Irq.Table.{
  Binding, Irq, is_bound, binding_by_srpn, update_binding, binding_add, cleared_binding, bad_srpn,
  plain_binding, irq_bind, irq_detach,
}

-- No two bound entries are for one interrupt.
abbrev pub IsSingle : List Binding → Type 0
IsSingle [] = Unit {0}
IsSingle (b ∷ bs) = (is_bound b ≡ true → binding_by_srpn bs b.srpn ≡ none) × IsSingle bs

abbrev is_none {ℓ} : {A : Type ℓ} → Option A → Bool
is_none none = true
is_none (some a) = false

abbrev given : Option (List Binding) → List Binding
given none = []
given (some bs) = bs

abbrev fn_of : Option Binding → ℕ
fn_of none = 0
fn_of (some b) = b.attach_fn

abbrev pub all_bound : List Binding → Bool
all_bound [] = true
all_bound (b ∷ bs) = is_bound b && all_bound bs

add_full : (bs : List Binding) (v : Binding) → is_none (binding_add bs v) ≡ all_bound bs
unfolding binding_add
add_full [] v = refl
add_full (b ∷ bs) v = elim (Option-cases (binding_add bs v)) [
  | inl full ↦ ground (arith, full, add_full bs v)
  | inr (rest, room) ↦ ground (arith, room, add_full bs v)
]

-- A binding is added to the table.
add_lem :
    (bs : List Binding) (v : Binding)
    → is_bound v ≡ true
    → binding_by_srpn bs v.srpn ≡ none
    → is_none (binding_add bs v) ≡ false
    → IsSingle bs
    → ((q : ℕ)
        → binding_by_srpn (given (binding_add bs v)) q
          ≡ (if v.srpn == q then some v else binding_by_srpn bs q))
      × IsSingle (given (binding_add bs v))
unfolding binding_add binding_by_srpn
add_lem [] v h absent e u = absurd (ground (arith, e))
add_lem (b ∷ bs) v h absent e u = elim (Bool-cases (is_bound b)) [
  | inr free ↦ rw free (λ q. ground (arith, h, free), (λ n. ground (arith, absent, free), u.1))
  | inl used ↦ elim (Option-cases (binding_add bs v)) [
    | inl full ↦ absurd (ground (arith, full, used))
    | inr (rest, room) ↦
        let below = add_lem bs v h (ground (arith, used, absent)) (ap is_none room) u.1 in
        let view : (q : ℕ)
            → binding_by_srpn rest q ≡ (if v.srpn == q then some v else binding_by_srpn bs q) =
          λ q. ap (λ o. binding_by_srpn (given o) q) (sym room) ∙ below.0 q in
        let single : IsSingle rest = subst (λ o. IsSingle (given o)) room below.1 in
        rw (used, room)
          (
            λ q. ground (arith, view q, used, absent),
            (λ n. ground (arith, view b.srpn, u.0 used, used, absent), single),
          )
  ]
]

-- A bound entry is overwritten by one that is free or for the same interrupt.
update_lem :
    (bs : List Binding) (srpn : ℕ) (v : Binding)
    → is_bound v ≡ false
    → IsSingle bs
    → ((q : ℕ)
        → binding_by_srpn (update_binding bs srpn v) q
          ≡ (if srpn == q then none else binding_by_srpn bs q))
      × IsSingle (update_binding bs srpn v)
unfolding update_binding binding_by_srpn
update_lem [] srpn v h u = (λ q. ground arith, _)
update_lem (b ∷ bs) srpn v h u = elim (Bool-cases (is_bound b && b.srpn == srpn)) [
  | inl hit ↦ rw hit (
    λ q. ground (arith, h, hit, u.0, ==→eq b.srpn srpn, ap (binding_by_srpn bs)),
    (λ n. absurd (ground (arith, h, n)), u.1),
  )
  | inr miss ↦
      let below = update_lem bs srpn v h u.1 in
      rw miss (
        λ q. ground (arith, below.0 q, miss),
        (λ n. ground (arith, below.0 b.srpn, u.0 n), below.1),
      )
]

-- What ulmk_kern_irq_bind makes of each request.
pub data Bound (t t' : Irq) (srpn : ℕ) (notif : Option ℕ) (bit_no rc : ℕ) : Type 0 where
  accepted :
      (n : ℕ)
      → notif ≡ some n
      → rc ≡ ok
      → bad_srpn srpn ≡ false
      → binding_by_srpn t.table srpn ≡ none
      → ((q : ℕ)
          → binding_by_srpn t'.table q
            ≡ (if srpn == q then some (plain_binding srpn n bit_no) else binding_by_srpn t.table q))
      → Bound t t' srpn notif bit_no rc
  no_room : rc ≡ enospc → t' ≡ t → all_bound t.table ≡ true → Bound t t' srpn notif bit_no rc
  refused :
      rc ≡ einval
      → t' ≡ t
      → ((bad_srpn srpn || ltb 31 bit_no) ≡ true)
        ⊎ ((binding_by_srpn t.table srpn ≢ none) ⊎ (notif ≡ none))
      → Bound t t' srpn notif bit_no rc

-- On a table with one binding for each interrupt, ulmk_kern_irq_bind binds exactly the interrupt it is
-- given to exactly the notification and the bit, disabled, and leaves all other bindings; it refuses a
-- bad interrupt or bit, one that is bound and a notification that is not there with EINVAL, and
-- reports ENOSPC where no entry is free, changing nothing. The table keeps one binding for each.
pub bind_refines :
    (t : Irq) (srpn bit_no : ℕ) (notif : Option ℕ)
    → IsSingle t.table
    → let (rc, t') = irq_bind t srpn notif bit_no in
      Bound t t' srpn notif bit_no rc × IsSingle t'.table
unfolding irq_bind
bind_refines t srpn bit_no none u = elim (Bool-cases (bad_srpn srpn || ltb 31 bit_no)) [
  | inl bad ↦ rw (irq_bind, bad) (refused refl refl (inl bad), u)
  | inr good ↦ elim (Option-cases (binding_by_srpn t.table srpn)) [
    | inl free ↦ rw (irq_bind, good, free) (refused refl refl (inr (inr refl)), u)
    | inr (b, taken) ↦
        rw (irq_bind, good, taken)
          (refused refl refl (inr (inl (λ free. ground (arith, free, taken)))), u)
  ]
]
bind_refines t srpn bit_no (some n) u = elim (Bool-cases (bad_srpn srpn || ltb 31 bit_no)) [
  | inl bad ↦ rw (irq_bind, bad) (refused refl refl (inl bad), u)
  | inr good ↦ elim (Option-cases (binding_by_srpn t.table srpn)) [
    | inr (b, taken) ↦
        rw (irq_bind, good, taken)
          (refused refl refl (inr (inl (λ free. ground (arith, free, taken)))), u)
    | inl free ↦ elim (Option-cases (binding_add t.table (plain_binding srpn n bit_no))) [
      | inl full ↦
          rw (irq_bind, good, free, full)
            (
              no_room refl refl
                  (sym (add_full t.table (plain_binding srpn n bit_no)) ∙ ap is_none full),
              u,
            )
      | inr (table, room) ↦
          let added = add_lem t.table (plain_binding srpn n bit_no) refl free (ap is_none room) u in
          rw (irq_bind, good, free, room)
            (
              accepted n refl refl (ground arith) free
                  (λ q. ap (λ o. binding_by_srpn (given o) q) (sym room) ∙ added.0 q),
              subst (λ o. IsSingle (given o)) room added.1,
            )
    ]
  ]
]

-- What ulmk_kern_irq_detach makes of each request.
pub data Detached (t t' : Irq) (srpn rc : ℕ) : Type 0 where
  freed :
      (b : Binding)
      → binding_by_srpn t.table srpn ≡ some b
      → b.attach_fn ≢ 0
      → rc ≡ ok
      → ((q : ℕ)
          → binding_by_srpn t'.table q ≡ (if srpn == q then none else binding_by_srpn t.table q))
      → Detached t t' srpn rc
  not_attached :
      rc ≡ einval
      → t' ≡ t
      → (bad_srpn srpn ≡ true)
        ⊎ ((b : Binding) → binding_by_srpn t.table srpn ≡ some b → b.attach_fn ≡ 0)
      → Detached t t' srpn rc

-- On a table with one binding for each interrupt, ulmk_kern_irq_detach frees exactly the binding of an
-- attached interrupt and leaves all others; it refuses a bad interrupt and one that has no attached
-- function with EINVAL, changing nothing. The table keeps one binding for each.
pub detach_refines :
    (t : Irq) (srpn : ℕ)
    → IsSingle t.table
    → let (rc, t') = irq_detach t srpn in Detached t t' srpn rc × IsSingle t'.table
unfolding irq_detach
detach_refines t srpn u = elim (Bool-cases (bad_srpn srpn)) [
  | inl bad ↦ rw (irq_detach, bad) (not_attached refl refl (inl bad), u)
  | inr good ↦ elim (Option-cases (binding_by_srpn t.table srpn)) [
    | inl free ↦
        rw (irq_detach, good, free)
          (not_attached refl refl (inr (λ b h. absurd (ground (arith, free, h)))), u)
    | inr (b, there) ↦ elim (Bool-cases (b.attach_fn == 0)) [
      | inl plain ↦
          rw (irq_detach, good, there, plain)
            (
              not_attached refl refl
                  (inr (λ c h. ap fn_of (sym h ∙ there) ∙ ==→eq b.attach_fn 0 plain)),
              u,
            )
      | inr attached ↦
          let cleared = update_lem t.table srpn cleared_binding refl u in
          rw (irq_detach, good, there, attached)
            (freed b there (==→ne b.attach_fn 0 attached) refl cleared.0, cleared.1)
    ]
  ]
]
