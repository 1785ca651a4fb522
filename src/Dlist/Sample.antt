-- ===== src/Dlist/Sample.antt =====
-- A list library that keeps the laws of `Dlist`: the pairs of a head and a node in order, and which
-- nodes still carry pointers.
use mathlib.Core.Option
use ulmk_microkernel.Base.{
  ℕ, ◌≡◌, refl, Bool, true, false, not, ◌&&◌, ◌||◌, List, [], ◌∷◌, ◌++◌, arith, ◌==◌, if◌then◌else◌,
  ==→eq,
}
use ulmk_microkernel.Dlist.{Dlist, mem, without, null, head?, insert_before}

pub record Links : Type 0 where
  pub on : List (ℕ × ℕ)
  pub stale : ℕ → Bool

abbrev at : ℕ → List (ℕ × ℕ) → List ℕ
at l [] = []
at l ((h, n) ∷ r) = let rest = at l r in if h == l then n ∷ rest else rest

abbrev occurs : ℕ → List (ℕ × ℕ) → Bool
occurs n [] = false
occurs n ((h, k) ∷ r) = n == k || occurs n r

abbrev drop_node : ℕ → List (ℕ × ℕ) → List (ℕ × ℕ)
drop_node n [] = []
drop_node n ((h, k) ∷ r) = let rest = drop_node n r in if n == k then rest else (h, k) ∷ rest

abbrev drop_head : ℕ → List (ℕ × ℕ) → List (ℕ × ℕ)
drop_head l [] = []
drop_head l ((h, k) ∷ r) = let rest = drop_head l r in if l == h then rest else (h, k) ∷ rest

abbrev linked : Links → ℕ → Bool
linked s n = s.stale n || occurs n s.on

occurs_of_mem : (l n : ℕ) (r : List (ℕ × ℕ)) → mem n (at l r) ≡ true → occurs n r ≡ true
occurs_of_mem l n [] h = ground arith
occurs_of_mem l n ((k, m) ∷ r) h = ground (arith, occurs_of_mem l n r)

detached_tail :
    (n h k : ℕ) (r : List (ℕ × ℕ))
    → ((l : ℕ) → mem n (at l ((h, k) ∷ r)) ≡ false)
    → (l : ℕ) → mem n (at l r) ≡ false
detached_tail n h k r d l = ground (arith, d l)

occurs_of_detached :
    (n : ℕ) (r : List (ℕ × ℕ)) → ((l : ℕ) → mem n (at l r) ≡ false) → occurs n r ≡ false
occurs_of_detached n [] d = refl
occurs_of_detached n ((h, k) ∷ r) d =
    ground (arith, d h, occurs_of_detached n r (detached_tail n h k r d))

pub at-drop_head :
    (l m : ℕ) (r : List (ℕ × ℕ)) → at m (drop_head l r) ≡ (if l == m then [] else at m r)
at-drop_head l m [] = ground arith
at-drop_head l m ((h, k) ∷ r) = ground (arith, at-drop_head l m r)

occurs-drop_head :
    (l n : ℕ) (r : List (ℕ × ℕ)) → (occurs n r || occurs n (drop_head l r)) ≡ occurs n r
occurs-drop_head l n [] = refl
occurs-drop_head l n ((h, k) ∷ r) = ground (arith, occurs-drop_head l n r)

pub at-append :
    (l n m : ℕ) (r : List (ℕ × ℕ))
    → at m (r ++ (l, n) ∷ []) ≡ (if l == m then at m r ++ n ∷ [] else at m r)
at-append l n m [] = ground arith
at-append l n m ((h, k) ∷ r) = ground (arith, at-append l n m r)

occurs-append :
    (l n m : ℕ) (r : List (ℕ × ℕ)) → occurs m (r ++ (l, n) ∷ []) ≡ (n == m || occurs m r)
occurs-append l n m [] = ground arith
occurs-append l n m ((h, k) ∷ r) = ground (arith, occurs-append l n m r)

pub at-drop_node : (n m : ℕ) (r : List (ℕ × ℕ)) → at m (drop_node n r) ≡ without n (at m r)
at-drop_node n m [] = refl
at-drop_node n m ((h, k) ∷ r) = ground (arith, at-drop_node n m r)

occurs-drop_node :
    (n m : ℕ) (r : List (ℕ × ℕ)) → occurs m (drop_node n r) ≡ (not (m == n) && occurs m r)
occurs-drop_node n m [] = ground arith
occurs-drop_node n m ((h, k) ∷ r) = ground (arith, occurs-drop_node n m r)

abbrev list_init : Links → ℕ → Links
list_init s l = record { on = drop_head l s.on; stale = linked s }

abbrev node_init : Links → ℕ → Links
node_init s n = record { on = s.on; stale = λ m. not (n == m) && s.stale m }

abbrev append : Links → ℕ → ℕ → Links
append s l n = record { on = s.on ++ (l, n) ∷ []; stale = s.stale }

abbrev remove : Links → ℕ → Links
remove s n = record { on = drop_node n s.on; stale = λ m. m == n || s.stale m }

pub linked_of_mem : (s : Links) (l n : ℕ) → mem n (at l s.on) ≡ true → linked s n ≡ true
linked_of_mem s l n h = ground (arith, occurs_of_mem l n s.on)

pub linked-list_init : (s : Links) (l n : ℕ) → linked (list_init s l) n ≡ linked s n
linked-list_init s l n = ground (arith, occurs-drop_head l n s.on)

pub linked-node_init :
    (s : Links) (n : ℕ)
    → ((l : ℕ) → mem n (at l s.on) ≡ false)
    → (m : ℕ) → linked (node_init s n) m ≡ (not (n == m) && linked s m)
linked-node_init s n d m = ground (arith, occurs_of_detached n s.on d, ==→eq n m)

pub linked-append : (s : Links) (l n m : ℕ) → linked (append s l n) m ≡ (n == m || linked s m)
linked-append s l n m = ground (arith, occurs-append l n m s.on)

pub linked-remove :
    (s : Links) (l n : ℕ) → mem n (at l s.on) ≡ true → (m : ℕ) → linked (remove s n) m ≡ linked s m
linked-remove s l n h m =
    ground (arith, occurs-drop_node n m s.on, occurs_of_mem l n s.on h, ==→eq m n)

abbrev pub sample : Dlist
sample = record {
  Links = Links;
  nodes = λ s l. at l s.on;
  is_linked = linked;
  is_empty = λ s l. null (at l s.on);
  peek_head = λ s l. head? (at l s.on);
  list_init = list_init;
  node_init = node_init;
  append = append;
  remove = remove;
  get = λ s l. Option.map (λ n. (n, remove s n)) (head? (at l s.on));
  is_empty_lem = λ s l. refl;
  peek_head_lem = λ s l. refl;
  get_lem = λ s l. refl;
  linked_of_mem = linked_of_mem;
  nodes-list_init = λ s l m. at-drop_head l m s.on;
  linked-list_init = linked-list_init;
  nodes-node_init = λ s n d m. refl;
  linked-node_init = linked-node_init;
  nodes-append = λ s l n d m. at-append l n m s.on;
  linked-append = λ s l n d m. linked-append s l n m;
  nodes-remove = λ s l n h m. at-drop_node n m s.on;
  linked-remove = linked-remove;
}

-- No node on any list.
abbrev pub no_links : Links
no_links = record { on = []; stale = λ _. false }

-- The node is put before the first of the list that the condition names.
abbrev insert_in : ℕ → ℕ → (ℕ → Bool) → List (ℕ × ℕ) → List (ℕ × ℕ)
insert_in l n cond [] = (l, n) ∷ []
insert_in l n cond ((h, k) ∷ r) =
    let rest = insert_in l n cond r in
    if h == l && cond k then (l, n) ∷ (h, k) ∷ r else (h, k) ∷ rest

abbrev pub insert_at : Links → ℕ → ℕ → (ℕ → Bool) → Links
insert_at s l n cond = record { on = insert_in l n cond s.on; stale = s.stale }

pub at-insert_in :
    (l n m : ℕ) (cond : ℕ → Bool) (r : List (ℕ × ℕ))
    → at m (insert_in l n cond r) ≡ (if l == m then insert_before cond n (at m r) else at m r)
at-insert_in l n m cond [] = ground arith
at-insert_in l n m cond ((h, k) ∷ r) = ground (arith, at-insert_in l n m cond r, ==→eq h l)
