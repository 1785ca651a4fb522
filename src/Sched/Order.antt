-- ===== src/Sched/Order.antt =====
-- The order in which the threads of a CPU run: those of a lower priority number first, and of one
-- priority the longest queued first. A list of such threads is what kernel/sched/fifo_rt.c keeps.
use ulmk_microkernel.Base.{
  ℕ, zero, suc, ◌+◌, ◌≤◌, ◌<◌, ◌≡◌, refl, ◌∙◌, sym, ap, ap₂, true, false, ◌||◌, some, List, [], ◌∷◌,
  ◌++◌, arith, ◌==◌, if◌then◌else◌, ltb, Bool-cases, inl, inr, ==→eq,
}
use ulmk_microkernel.Dlist.{mem, without, head?, null}

-- The lists of `n` priorities from `p` on, one after the other.
unfoldable pub flatten : (ℕ → List ℕ) → ℕ → ℕ → List ℕ
flatten f zero p = []
flatten f (suc n) p = f p ++ flatten f n (p + 1)

-- Before the first thread of a greater priority number.
abbrev pub insert_by : (ℕ → ℕ) → ℕ → List ℕ → List ℕ
insert_by prio t [] = t ∷ []
insert_by prio t (x ∷ xs) =
    let rest = insert_by prio t xs in if ltb (prio t) (prio x) then t ∷ x ∷ xs else x ∷ rest

-- Every thread of a list has the priority.
abbrev pub AllOf : (ℕ → ℕ) → ℕ → List ℕ → Type 0
AllOf prio q xs = (u : ℕ) → mem u xs ≡ true → prio u ≡ q

AllOf-tail :
    (prio : ℕ → ℕ) (q x : ℕ) (xs : List ℕ) → AllOf prio q (x ∷ xs) → AllOf prio q xs × (prio x ≡ q)
AllOf-tail prio q x xs h = (λ u m. h u (ground (arith, m)), h x (ground arith))

pub flatten_ext :
    (f g : ℕ → List ℕ) (n p : ℕ)
    → ((q : ℕ) → p ≤ q → q < p + n → f q ≡ g q)
    → flatten f n p ≡ flatten g n p
unfolding flatten
flatten_ext f g zero p h = refl
flatten_ext f g (suc n) p h =
    ap₂ (λ xs ys. xs ++ ys) (h p (omega arith) (omega arith))
      (flatten_ext f g n (p + 1) (λ q lo hi. h q (omega arith) (omega arith)))

insert_over :
    (prio : ℕ → ℕ) (t q : ℕ) (xs ys : List ℕ)
    → AllOf prio q xs
    → ltb (prio t) q ≡ false
    → insert_by prio t (xs ++ ys) ≡ xs ++ insert_by prio t ys
insert_over prio t q [] ys h g = refl
insert_over prio t q (x ∷ xs) ys h g =
    let (rest, here) = AllOf-tail prio q x xs h in
    rw (here, g) (ap (λ zs. x ∷ zs) (insert_over prio t q xs ys rest g))

insert_front :
    (prio : ℕ → ℕ) (t q : ℕ) (xs ys : List ℕ)
    → AllOf prio q xs
    → ltb (prio t) q ≡ true
    → insert_by prio t ys ≡ t ∷ ys
    → insert_by prio t (xs ++ ys) ≡ t ∷ xs ++ ys
insert_front prio t q [] ys h g e = e
insert_front prio t q (x ∷ xs) ys h g e = rw ((AllOf-tail prio q x xs h).1, g) refl

insert_first :
    (prio : ℕ → ℕ) (t : ℕ) (f : ℕ → List ℕ) (n p : ℕ)
    → ((q : ℕ) → q < p + n → AllOf prio q (f q))
    → prio t < p
    → insert_by prio t (flatten f n p) ≡ t ∷ flatten f n p
unfolding flatten
insert_first prio t f zero p h g = refl
insert_first prio t f (suc n) p h g =
    insert_front prio t p (f p) (flatten f n (p + 1)) (h p (omega arith)) (ground arith)
      (insert_first prio t f n (p + 1) (λ q hi. h q (omega arith)) (omega arith))

snoc_append : (xs ys : List ℕ) (t : ℕ) → (xs ++ t ∷ []) ++ ys ≡ xs ++ t ∷ ys
snoc_append [] ys t = refl
snoc_append (x ∷ xs) ys t = ap (λ zs. x ∷ zs) (snoc_append xs ys t)

-- To append to the list of the thread's priority is to insert in the order.
pub flatten-insert :
    (prio : ℕ → ℕ) (t : ℕ) (f g : ℕ → List ℕ) (n p : ℕ)
    → ((q : ℕ) → q < p + n → AllOf prio q (f q))
    → ((q : ℕ) → q < p + n → g q ≡ (if q == prio t then f q ++ t ∷ [] else f q))
    → p ≤ prio t
    → prio t < p + n
    → flatten g n p ≡ insert_by prio t (flatten f n p)
unfolding flatten
flatten-insert prio t f g zero p all new lo hi = absurd (omega arith)
flatten-insert prio t f g (suc n) p all new lo hi = elim (Bool-cases (p == prio t)) [
  | inl here ↦
      let at : g p ≡ f p ++ t ∷ [] = new p (omega arith) ∙ rw here refl in
      let same = flatten_ext g f n (p + 1) (λ q low high.
        let off : (q == prio t) ≡ false = ground arith in new q (omega arith) ∙ rw off refl) in
      let front = insert_first prio t f n (p + 1) (λ q high. all q (omega arith)) (ground arith) in
      rw (at, same)
        (snoc_append (f p) (flatten f n (p + 1)) t
          ∙ ap (λ zs. f p ++ zs) (sym front)
          ∙ sym (
              insert_over prio t p (f p) (flatten f n (p + 1)) (all p (omega arith))
                (ground arith)))
  | inr later ↦
      let at : g p ≡ f p = new p (omega arith) ∙ rw later refl in
      rw at (
        ap (λ zs. f p ++ zs)
          (flatten-insert prio t f g n (p + 1) (λ q high. all q (omega arith))
            (λ q high. new q (omega arith)) (ground arith) (omega arith))
        ∙ sym
            (insert_over prio t p (f p) (flatten f n (p + 1)) (all p (omega arith)) (ground arith)))
]

without-append : (t : ℕ) (xs ys : List ℕ) → without t (xs ++ ys) ≡ without t xs ++ without t ys
without-append t [] ys = refl
without-append t (x ∷ xs) ys = ground (arith, without-append t xs ys)

pub flatten-without :
    (t : ℕ) (f g : ℕ → List ℕ) (n p : ℕ)
    → ((q : ℕ) → q < p + n → g q ≡ without t (f q))
    → flatten g n p ≡ without t (flatten f n p)
unfolding flatten
flatten-without t f g zero p h = refl
flatten-without t f g (suc n) p h =
    ap₂ (λ xs ys. xs ++ ys) (h p (omega arith))
      (flatten-without t f g n (p + 1) (λ q hi. h q (omega arith)))
    ∙ sym (without-append t (f p) (flatten f n (p + 1)))

-- The first list that is not empty gives the head.
pub head-flatten :
    (f : ℕ → List ℕ) (n p q : ℕ)
    → p ≤ q
    → q < p + n
    → ((r : ℕ) → r < q → null (f r) ≡ true)
    → null (f q) ≡ false
    → head? (flatten f n p) ≡ head? (f q)
unfolding flatten
head-flatten f zero p q lo hi empty some_left = absurd (omega arith)
head-flatten f (suc n) p q lo hi empty some_left = elim (Bool-cases (p == q)) [
  | inl here ↦ rw (==→eq p q here) (first_of (f q) (flatten f n (q + 1)) some_left)
  | inr later ↦
      none_of (f p) (flatten f n (p + 1)) (empty p (ground arith))
      ∙ head-flatten f n (p + 1) q (ground arith) (omega arith) empty some_left
]
  where
    first_of : (xs ys : List ℕ) → null xs ≡ false → head? (xs ++ ys) ≡ head? xs
    first_of [] ys h = absurd (ground arith)
    first_of (x ∷ xs) ys h = refl

    none_of : (xs ys : List ℕ) → null xs ≡ true → head? (xs ++ ys) ≡ head? ys
    none_of [] ys h = refl
    none_of (x ∷ xs) ys h = absurd (ground arith)

pub flatten-none :
    (f : ℕ → List ℕ) (n p : ℕ) → ((r : ℕ) → r < p + n → null (f r) ≡ true) → flatten f n p ≡ []
unfolding flatten
flatten-none f zero p h = refl
flatten-none f (suc n) p h =
    rw (nil_of (f p) (h p (omega arith))) (flatten-none f n (p + 1) (λ r hi. h r (omega arith)))
  where
    nil_of : (xs : List ℕ) → null xs ≡ true → xs ≡ []
    nil_of [] g = refl
    nil_of (x ∷ xs) g = absurd (ground arith)

mem-append : (t : ℕ) (xs ys : List ℕ) → mem t (xs ++ ys) ≡ (mem t xs || mem t ys)
mem-append t [] ys = refl
mem-append t (x ∷ xs) ys = ground (arith, mem-append t xs ys)

pub mem-flatten :
    (t : ℕ) (f : ℕ → List ℕ) (n p q : ℕ)
    → p ≤ q
    → q < p + n
    → mem t (f q) ≡ true
    → mem t (flatten f n p) ≡ true
unfolding flatten
mem-flatten t f zero p q lo hi h = absurd (omega arith)
mem-flatten t f (suc n) p q lo hi h =
    let both = mem-append t (f p) (flatten f n (p + 1)) in
    elim (Bool-cases (p == q)) [
      | inl here ↦ ground (arith, ap (λ r. mem t (f r)) (==→eq p q here))
      | inr later ↦ ground (arith, mem-flatten t f n (p + 1) q (ground arith) (omega arith) h)
    ]

pub not-mem-flatten :
    (t : ℕ) (f : ℕ → List ℕ) (n p : ℕ)
    → ((q : ℕ) → mem t (f q) ≡ false)
    → mem t (flatten f n p) ≡ false
unfolding flatten
not-mem-flatten t f zero p h = refl
not-mem-flatten t f (suc n) p h =
    ground (arith, mem-append t (f p) (flatten f n (p + 1)), h p, not-mem-flatten t f n (p + 1) h)

-- A thread of the lists from priority `p` on has a priority of at least `p`.
mem-at_least :
    (prio : ℕ → ℕ) (f : ℕ → List ℕ) (n p u : ℕ)
    → ((q : ℕ) → q < p + n → AllOf prio q (f q))
    → mem u (flatten f n p) ≡ true
    → p ≤ prio u
unfolding flatten
mem-at_least prio f zero p u all h = absurd (ground arith)
mem-at_least prio f (suc n) p u all h =
    let both = mem-append u (f p) (flatten f n (p + 1)) in
    elim (Bool-cases (mem u (f p))) [
      | inl here ↦ omega (arith, all p (omega arith) u here)
      | inr later ↦
          omega
            (arith, mem-at_least prio f n (p + 1) u (λ q hi. all q (omega arith)) (ground arith))
    ]

-- The first of the lists has the least priority number.
pub head-least :
    (prio : ℕ → ℕ) (f : ℕ → List ℕ) (n p t u : ℕ)
    → ((q : ℕ) → q < p + n → AllOf prio q (f q))
    → head? (flatten f n p) ≡ some t
    → mem u (flatten f n p) ≡ true
    → prio t ≤ prio u
unfolding flatten
head-least prio f zero p t u all h m = absurd (ground arith)
head-least prio f (suc n) p t u all h m = elim (Bool-cases (null (f p))) [
  | inl empty ↦
      let bare : f p ≡ [] = null_nil (f p) empty in
      head-least prio f n (p + 1) t u (λ q hi. all q (omega arith))
        (ap (λ xs. head? (xs ++ flatten f n (p + 1))) (sym bare) ∙ h)
        (ap (λ xs. mem u (xs ++ flatten f n (p + 1))) (sym bare) ∙ m)
  | inr some_left ↦
      let here = all p (omega arith) t (head_mem (f p) (flatten f n (p + 1)) some_left h) in
      omega (arith, here, mem-at_least prio f (suc n) p u all m)
]
  where
    null_nil : (xs : List ℕ) → null xs ≡ true → xs ≡ []
    null_nil [] g = refl
    null_nil (x ∷ xs) g = absurd (ground arith)

    head_mem : (xs ys : List ℕ) → null xs ≡ false → head? (xs ++ ys) ≡ some t → mem t xs ≡ true
    head_mem [] ys g e = absurd (ground arith)
    head_mem (x ∷ xs) ys g e = ground arith
