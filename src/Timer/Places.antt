-- ===== src/Timer/Places.antt =====
-- On which list each timer is, before and after the operations of the wheel.
use ulmk_microkernel.Base.{
  ℕ, ◌≡◌, refl, ◌∙◌, inl, inr, Bool, true, false, not, ◌&&◌, ◌||◌, List, [], ◌∷◌, arith, ◌==◌,
  if◌then◌else◌, Bool-cases,
}
use ulmk_microkernel.Dlist.{Dlist, mem, without, IsDetached, mem-without, mem-snoc}
use ulmk_microkernel.Timer.Wheel.{out_list, move_nodes}

module _ (D : Dlist) where
  -- The timer is on the list at `l`.
  abbrev pub holds : D.Links → ℕ → ℕ → Bool
  holds s l n = mem n (D.nodes s l)

  -- A node with pointers is on a list.
  abbrev pub IsTidy : D.Links → Type 0
  IsTidy s = (n : ℕ) → D.is_linked s n ≡ true → (l : ℕ) × (holds s l n ≡ true)

  unlinked-IsDetached : (s : D.Links) (n : ℕ) → D.is_linked s n ≡ false → IsDetached D s n
  unlinked-IsDetached s n h l = ground (arith, D.linked_of_mem s l n)

  remove-IsDetached : (s : D.Links) (l n : ℕ) → holds s l n ≡ true → IsDetached D (D.remove s n) n
  remove-IsDetached s l n h m =
      ground (arith, D.nodes-remove s l n h m, mem-without n n (D.nodes s m))

  -- Where the nodes are after a node has been moved from the list at `k` to the end of that at `l`.
  pub holds-move :
      (s : D.Links) (k l n : ℕ)
      → holds s k n ≡ true
      → (i m : ℕ)
      → holds (D.append (D.remove s n) l n) i m ≡ (if n == m then l == i else holds s i m)
  holds-move s k l n h i m = ground (
    arith,
    D.nodes-append (D.remove s n) l n (remove-IsDetached s k n h) i,
    D.nodes-remove s k n h i,
    mem-without m n (D.nodes s i),
    mem-snoc m n (without n (D.nodes s i)),
  )

  pub linked-move :
      (s : D.Links) (k l n : ℕ)
      → holds s k n ≡ true
      → (m : ℕ) → D.is_linked (D.append (D.remove s n) l n) m ≡ (n == m || D.is_linked s m)
  linked-move s k l n h m = ground (
    arith,
    D.linked-append (D.remove s n) l n (remove-IsDetached s k n h) m,
    D.linked-remove s k n h m,
  )

  pub move-IsTidy :
      (s : D.Links) (k l n : ℕ)
      → holds s k n ≡ true
      → IsTidy s
      → IsTidy (D.append (D.remove s n) l n)
  move-IsTidy s k l n h tidy m linked = elim (Bool-cases (n == m)) [
    | inl e ↦ (l, ground (arith, holds-move s k l n h l m))
    | inr e ↦
        let (x, there) = tidy m (ground (arith, linked-move s k l n h m)) in
        (x, ground (arith, holds-move s k l n h x m))
  ]

  -- A pass over nodes that are all on lists puts them, and no others, on the list of the expired.
  pub record Moved (s t : D.Links) (ns : List ℕ) : Type 0 where
    pub tidy : IsTidy t
    pub place : (i m : ℕ) → holds t i m ≡ (if mem m ns then out_list == i else holds s i m)
    pub linked : (m : ℕ) → D.is_linked t m ≡ D.is_linked s m

  pub move_nodes-Moved :
      (ns : List ℕ) (s : D.Links)
      → IsTidy s
      → ((m : ℕ) → mem m ns ≡ true → D.is_linked s m ≡ true)
      → Moved s (move_nodes D ns s) ns
  unfolding move_nodes
  move_nodes-Moved [] s tidy all = record { tidy = tidy; place = λ i m. refl; linked = λ m. refl }
  move_nodes-Moved (n ∷ ns) s tidy all =
      let (k, h) = tidy n (all n (ground arith)) in
      let rest =
        move_nodes-Moved ns (D.append (D.remove s n) out_list n) (move-IsTidy s k out_list n h tidy)
          (λ m hm. ground (arith, linked-move s k out_list n h m, all m)) in
      record {
        tidy = rest.tidy;
        place = λ i m. ground (arith, rest.place i m, holds-move s k out_list n h i m);
        linked = λ m. ground (arith, rest.linked m, linked-move s k out_list n h m, all m);
      }

  -- `sys_dlist_remove` and `sys_dnode_init` of a node that is on the list at `k`.
  abbrev pub unlinked : D.Links → ℕ → D.Links
  unlinked s n = D.node_init (D.remove s n) n

  pub nodes-unlinked :
      (s : D.Links) (k n : ℕ)
      → holds s k n ≡ true
      → (i : ℕ) → D.nodes (unlinked s n) i ≡ without n (D.nodes s i)
  nodes-unlinked s k n h i =
      D.nodes-node_init (D.remove s n) n (remove-IsDetached s k n h) i ∙ D.nodes-remove s k n h i

  pub holds-unlinked :
      (s : D.Links) (k n : ℕ)
      → holds s k n ≡ true
      → (i m : ℕ) → holds (unlinked s n) i m ≡ (not (n == m) && holds s i m)
  holds-unlinked s k n h i m = rw (nodes-unlinked s k n h i) (mem-without m n (D.nodes s i))

  pub linked-unlinked :
      (s : D.Links) (k n : ℕ)
      → holds s k n ≡ true
      → (m : ℕ) → D.is_linked (unlinked s n) m ≡ (not (n == m) && D.is_linked s m)
  linked-unlinked s k n h m = ground (
    arith,
    D.linked-node_init (D.remove s n) n (remove-IsDetached s k n h) m,
    D.linked-remove s k n h m,
  )

  pub unlinked-IsTidy :
      (s : D.Links) (k n : ℕ) → holds s k n ≡ true → IsTidy s → IsTidy (unlinked s n)
  unlinked-IsTidy s k n h tidy m linked =
      let (l, there) = tidy m (ground (arith, linked-unlinked s k n h m)) in
      (l, ground (arith, holds-unlinked s k n h l m, linked-unlinked s k n h m))
