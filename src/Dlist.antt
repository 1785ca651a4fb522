-- ===== src/Dlist.antt =====
-- The calls that the kernel makes of kernel/include/list.h, Zephyr's intrusive list, which the tree
-- carries a copy of. The list is not modelled: it is this interface, which the timer and the
-- scheduler take as a parameter. A list head and a node are addresses; every head is initialised.
pub mod Sample
use mathlib.Core.Option
use ulmk_microkernel.Base.{
  ℕ, ◌≡◌, ◌∙◌, ap, Bool, true, false, not, ◌&&◌, ◌||◌, Option, none, some, List, [], ◌∷◌, ◌++◌,
  arith, ◌==◌, if◌then◌else◌,
}

-- Is the node among these?
abbrev pub mem : ℕ → List ℕ → Bool
mem n [] = false
mem n (x ∷ xs) = n == x || mem n xs

-- The list without the node.
abbrev pub without : ℕ → List ℕ → List ℕ
without n [] = []
without n (x ∷ xs) = let rest = without n xs in if n == x then rest else x ∷ rest

abbrev pub null : List ℕ → Bool
null [] = true
null (x ∷ xs) = false

abbrev pub head? : List ℕ → Option ℕ
head? [] = none
head? (x ∷ xs) = some x

-- Before the first node that the condition names, else at the end.
abbrev pub insert_before : (ℕ → Bool) → ℕ → List ℕ → List ℕ
insert_before cond t [] = t ∷ []
insert_before cond t (x ∷ xs) =
    let rest = insert_before cond t xs in if cond x then t ∷ x ∷ xs else x ∷ rest

-- `nodes s l` is what the list at `l` holds, head first; the other fields are the functions of
-- list.h, and laws that state what each is documented to do. `sys_dlist_remove` leaves the pointers
-- of the node as they are, so the node is unlinked only after `sys_dnode_init`.
pub record Dlist : Type 1 where
  pub Links : Type 0
  pub nodes : Links → ℕ → List ℕ
  pub is_linked : Links → ℕ → Bool
  pub is_empty : Links → ℕ → Bool
  pub peek_head : Links → ℕ → Option ℕ
  pub list_init : Links → ℕ → Links
  pub node_init : Links → ℕ → Links
  pub append : Links → ℕ → ℕ → Links
  pub remove : Links → ℕ → Links
  pub get : Links → ℕ → Option (ℕ × Links)
  pub is_empty_lem : (s : Links) (l : ℕ) → is_empty s l ≡ null (nodes s l)
  pub peek_head_lem : (s : Links) (l : ℕ) → peek_head s l ≡ head? (nodes s l)
  pub get_lem :
      (s : Links) (l : ℕ) → get s l ≡ Option.map (λ n. (n, remove s n)) (head? (nodes s l))
  pub linked_of_mem : (s : Links) (l n : ℕ) → mem n (nodes s l) ≡ true → is_linked s n ≡ true
  pub nodes-list_init :
      (s : Links) (l m : ℕ) → nodes (list_init s l) m ≡ (if l == m then [] else nodes s m)
  pub linked-list_init : (s : Links) (l n : ℕ) → is_linked (list_init s l) n ≡ is_linked s n
  pub nodes-node_init :
      (s : Links) (n : ℕ)
      → ((l : ℕ) → mem n (nodes s l) ≡ false)
      → (m : ℕ) → nodes (node_init s n) m ≡ nodes s m
  pub linked-node_init :
      (s : Links) (n : ℕ)
      → ((l : ℕ) → mem n (nodes s l) ≡ false)
      → (m : ℕ) → is_linked (node_init s n) m ≡ (not (n == m) && is_linked s m)
  pub nodes-append :
      (s : Links) (l n : ℕ)
      → ((k : ℕ) → mem n (nodes s k) ≡ false)
      → (m : ℕ) → nodes (append s l n) m ≡ (if l == m then nodes s m ++ n ∷ [] else nodes s m)
  pub linked-append :
      (s : Links) (l n : ℕ)
      → ((k : ℕ) → mem n (nodes s k) ≡ false)
      → (m : ℕ) → is_linked (append s l n) m ≡ (n == m || is_linked s m)
  pub nodes-remove :
      (s : Links) (l n : ℕ)
      → mem n (nodes s l) ≡ true
      → (m : ℕ) → nodes (remove s n) m ≡ without n (nodes s m)
  pub linked-remove :
      (s : Links) (l n : ℕ)
      → mem n (nodes s l) ≡ true
      → (m : ℕ) → is_linked (remove s n) m ≡ is_linked s m

-- The node is on no list.
abbrev pub IsDetached : (D : Dlist) → D.Links → ℕ → Type 0
IsDetached D s n = (l : ℕ) → mem n (D.nodes s l) ≡ false

pub mem-without : (m n : ℕ) (xs : List ℕ) → mem m (without n xs) ≡ (not (n == m) && mem m xs)
mem-without m n [] = ground arith
mem-without m n (x ∷ xs) = ground (arith, mem-without m n xs)

pub mem-snoc : (m n : ℕ) (xs : List ℕ) → mem m (xs ++ n ∷ []) ≡ (m == n || mem m xs)
mem-snoc m n [] = ground arith
mem-snoc m n (x ∷ xs) = ground (arith, mem-snoc m n xs)

-- `sys_dlist_remove` and `sys_dnode_init` of a node that is on a list: it is off every list, and not
-- linked any more.
module _ (D : Dlist) (s : D.Links) (q n : ℕ) (there : mem n (D.nodes s q) ≡ true) where
  removed-IsDetached : IsDetached D (D.remove s n) n
  removed-IsDetached l =
      ground (arith, ap (mem n) (D.nodes-remove s q n there l), mem-without n n (D.nodes s l))

  pub nodes-off : (l : ℕ) → D.nodes (D.node_init (D.remove s n) n) l ≡ without n (D.nodes s l)
  nodes-off l =
      D.nodes-node_init (D.remove s n) n removed-IsDetached l ∙ D.nodes-remove s q n there l

  pub linked-off :
      (m : ℕ) → D.is_linked (D.node_init (D.remove s n) n) m ≡ (not (n == m) && D.is_linked s m)
  linked-off m =
      D.linked-node_init (D.remove s n) n removed-IsDetached m
      ∙ ap (λ (b : Bool). not (n == m) && b) (D.linked-remove s q n there m)
