-- ===== src/Area/Grant.antt =====
-- ulmk_kern_mem_grant (kernel/mem/mem.c): what a thread can hand out of its memory.
use ulmk_microkernel.Base.{
  ℕ, ◌+◌, ◌%◌, ◌^◌, ◌≡◌, ◌≢◌, refl, sym, ◌∙◌, ap, subst, true, false, ◌||◌, Option, none, some,
  arith, List, [], ◌∷◌, ◌++◌, ltb, ◌==◌, if◌then◌else◌, Bool-cases, ==→eq, ne→==, Option-cases, inl,
  inr, u32_mod, bit_and,
}
use ulmk_microkernel.Dlist.{mem}
use ulmk_microkernel.Bits.{bit-bit_and}
use ulmk_microkernel.Area.Set.{Area, Areas, walk, fill, area_insert, area_find_base, mem_grant}
use ulmk_microkernel.Area.Order.{is_none}
use ulmk_microkernel.Area.Insert.{IsFree}
use ulmk_microkernel.Area.Lookup.{IsSubset, find_base_sound}

-- Every area of a set that was derived from another has that one's range, and no permission that it
-- lacks.
abbrev pub IsAttenuated : Areas → Type 0
IsAttenuated m =
    (s x p : ℕ)
    → mem x (m.members s) ≡ true
    → (m.area x).parent ≡ some p
    → IsSubset (m.area x).perms (m.area p).perms
      × ((m.area x).base ≡ (m.area p).base)
      × ((m.area x).size ≡ (m.area p).size)

-- No area of a set was derived from the record.
abbrev pub IsChildless : Areas → ℕ → Type 0
IsChildless m a = (s x : ℕ) → mem x (m.members s) ≡ true → (m.area x).parent ≢ some a

mem-splice :
    (before after : List ℕ) (a x : ℕ)
    → mem x (before ++ a ∷ after) ≡ (x == a || mem x (before ++ after))
mem-splice [] after a x = refl
mem-splice (b ∷ before) after a x = ground (arith, mem-splice before after a x)

abbrev joined : Option (List ℕ × List ℕ) → List ℕ
joined none = []
joined (some (before, after)) = before ++ after

walk-joined :
    (area : ℕ → Area) (xs : List ℕ) (base size : ℕ)
    → is_none (walk area xs base size) ≡ false
    → joined (walk area xs base size) ≡ xs
unfolding walk
walk-joined area [] base size h = refl
walk-joined area (x ∷ xs) base size h = elim (Option-cases (walk area xs base size)) [
  | inl stopped ↦ ground (arith, stopped)
  | inr (split, found) ↦
      let rest = walk-joined area xs base size (ap is_none found) in ground (arith, found, rest)
]

-- What a filled record keeps of the others, and what it says itself.
record Linked (area area' : ℕ → Area) (a base size perms : ℕ) (parent : Option ℕ) : Type 0 where
  same :
      (x : ℕ)
      → (a == x) ≡ false
      → ((area' x).parent ≡ (area x).parent)
        × ((area' x).perms ≡ (area x).perms)
        × ((area' x).base ≡ (area x).base)
        × ((area' x).size ≡ (area x).size)
  own :
      ((area' a).parent ≡ parent)
      × ((area' a).perms ≡ perms)
      × ((area' a).base ≡ base)
      × ((area' a).size ≡ size)

fill-Linked :
    (area : ℕ → Area) (s base size perms kind flags a : ℕ) (parent : Option ℕ)
    → Linked area (fill area s base size perms kind flags a parent) a base size perms parent
fill-Linked area s base size perms kind flags a none = record {
  same = λ x h. (ground arith, ground arith, ground arith, ground arith);
  own = (ground arith, ground arith, ground arith, ground arith);
}
fill-Linked area s base size perms kind flags a (some p) = record {
  same = λ x h. (ground arith, ground arith, ground arith, ground arith);
  own = (ground arith, ground arith, ground arith, ground arith);
}

and-IsSubset : (p q : ℕ) → IsSubset (bit_and p q) q
and-IsSubset p q i h = ground (arith, bit-bit_and p q i)

-- A new area may have this parent: `a` is another record, and the range and the permissions are the
-- parent's or less.
abbrev IsChildOf : Areas → ℕ → ℕ → ℕ → ℕ → Option ℕ → Type 0
IsChildOf m a base size perms parent =
    (p : ℕ)
    → parent ≡ some p
    → ((a == p) ≡ false)
      × IsSubset perms (m.area p).perms
      × (base ≡ (m.area p).base)
      × (size ≡ (m.area p).size)

Linked-IsAttenuated :
    (m : Areas) (area' : ℕ → Area) (members' : ℕ → List ℕ) (count' : ℕ → ℕ) (a base size perms : ℕ)
    (parent : Option ℕ)
    → IsAttenuated m
    → IsChildless m a
    → Linked m.area area' a base size perms parent
    → IsChildOf m a base size perms parent
    → ((s x : ℕ) → (a == x) ≡ false → mem x (members' s) ≡ true → mem x (m.members s) ≡ true)
    → IsAttenuated (record { area = area'; members = members'; count = count' })
Linked-IsAttenuated m area' members' count' a base size perms parent att childless l child old s x p
      inside par =
    elim (Bool-cases (a == x)) [
      | inl new ↦
          let e : area' x ≡ area' a = ap area' (sym (==→eq a x new)) in
          let up = child p (sym l.own.0 ∙ sym (ap (λ (t : Area). t.parent) e) ∙ par) in
          let kept = l.same p up.0 in
          rw (kept.1, kept.2, kept.3, e, l.own.1, l.own.2, l.own.3) (up.1, up.2, up.3)
      | inr other ↦
          let there = old s x other inside in
          let mine = l.same x other in
          let from = sym mine.0 ∙ par in
          let up = att s x p there from in
          let kept = l.same p (ne→== a p (λ e. childless s x there (from ∙ ap some (sym e)))) in
          rw (kept.1, kept.2, kept.3, mine.1, mine.2, mine.3) up
    ]

abbrev from_some : ℕ → Option ℕ → ℕ
from_some d none = d
from_some d (some x) = x

held_ne : (a x : ℕ) (xs : List ℕ) → mem a xs ≡ false → mem x xs ≡ true → (a == x) ≡ false
held_ne a x xs h g = ne→== a x (λ e. ground (arith, ap (λ (y : ℕ). mem y xs) e))

insert-IsAttenuated :
    (m : Areas) (s base size perms kind flags a : ℕ) (parent : Option ℕ)
    → IsAttenuated m
    → IsChildless m a
    → IsChildOf m a base size perms parent
    → IsAttenuated (area_insert m s base size perms kind flags parent (some a)).1
unfolding area_insert
insert-IsAttenuated m s base size perms kind flags a parent att childless child =
    elim (Bool-cases (size == 0 || ltb ((base + size) % u32_mod) base)) [
      | inl bad ↦ rw bad att
      | inr good ↦ elim (Option-cases (walk m.area (m.members s) base size)) [
        | inl stopped ↦ rw (good, stopped) att
        | inr (split, found) ↦
            let whole =
              ap joined (sym found)
              ∙ walk-joined m.area (m.members s) base size (ap is_none found) in
            rw (good, found)
              (Linked-IsAttenuated m (fill m.area s base size perms kind flags a parent)
                (λ t. if s == t then split.0 ++ a ∷ split.1 else m.members t)
                (λ t. if s == t then (m.count t + 1) % 2 ^ 16 else m.count t) a base size perms
                parent att childless (fill-Linked m.area s base size perms kind flags a parent)
                child
                (λ t x other inside. elim (Bool-cases (s == t)) [
                  | inl same ↦ ground (
                    arith,
                    mem-splice split.0 split.1 a x,
                    ap (mem x) whole,
                    ap m.members (==→eq s t same),
                  )
                  | inr elsewhere ↦ ground arith
                ]))
      ]
    ]

-- Where every area of a set that was derived from another has that one's range and no permission
-- that it lacks, the same holds after ulmk_kern_mem_grant with a record `a` that is on no set and that
-- nothing was derived from.
pub grant-IsAttenuated :
    (m : Areas) (cur target addr perms a : ℕ)
    → IsAttenuated m
    → IsFree m a
    → IsChildless m a
    → IsAttenuated (mem_grant m (some cur) addr (some target) perms (some a)).1
unfolding mem_grant area_insert
grant-IsAttenuated m cur target addr perms a att fresh childless = elim (Bool-cases (addr == 0)) [
  | inl null ↦ rw null att
  | inr valid ↦ elim (Option-cases (area_find_base m cur addr)) [
    | inl missing ↦ rw (valid, missing) att
    | inr (x, held) ↦
        let there = find_base_sound m.area (m.members cur) addr x held in
        rw (valid, held)
          (insert-IsAttenuated m target (m.area x).base (m.area x).size
            (bit_and perms (m.area x).perms) _ 0 a (some x) att childless
            (λ p e.
              subst
                (λ q.
                  ((a == q) ≡ false)
                  × IsSubset (bit_and perms (m.area x).perms) (m.area q).perms
                  × ((m.area x).base ≡ (m.area q).base)
                  × ((m.area x).size ≡ (m.area q).size))
                (ap (from_some x) e)
                (
                  held_ne a x (m.members cur) (fresh cur) there.0,
                  and-IsSubset perms (m.area x).perms,
                  refl,
                  refl,
                )))
  ]
]
