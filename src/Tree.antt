-- ===== src/Tree.antt =====
-- What Locksmith relies on of the red-black tree macros (tree.h, a copy of the BSD library): RB_FIND,
-- RB_INSERT, RB_REMOVE and RB_FOREACH over nodes that are compared by one pointer field.
pub mod Assoc
use lksmith.Base.{ℕ, ◌<◌, ltb, arith, ◌≡◌, ◌↔◌, List, Option, none, some, ◌==◌, In, if◌then◌else◌}

-- A node is an address with the key that stands in it. `insert` returns the node that has the key
-- already and then leaves the tree alone; `elements` are the nodes in the order of RB_FOREACH.
pub record TreeLib : Type 1 where
  pub Tree : Type 0
  pub empty : Tree
  pub find : ℕ → Tree → Option ℕ
  pub insert : ℕ → ℕ → Tree → Option ℕ × Tree
  pub remove : ℕ → Tree → Tree
  pub elements : Tree → List ℕ
  pub find-empty : (k : ℕ) → find k empty ≡ none
  pub insert-find : (k a : ℕ) (t : Tree) → (insert k a t).0 ≡ find k t
  pub find-insert :
      (k a j : ℕ) (t : Tree)
      → find k t ≡ none
      → find j (insert k a t).1 ≡ (if k == j then some a else find j t)
  pub insert-present : (k a b : ℕ) (t : Tree) → find k t ≡ some b → (insert k a t).1 ≡ t
  pub find-remove : (k j : ℕ) (t : Tree) → find j (remove k t) ≡ (if k == j then none else find j t)
  pub In-elements : (a : ℕ) (t : Tree) → In a (elements t) ↔ ((k : ℕ) × (find k t ≡ some a))

-- The comparison of two nodes by their pointers: -1, 1 or 0.
pub data Compared : Type 0 where
  less greater equal : Compared

unfoldable pub compare_ptrs : ℕ → ℕ → Compared
compare_ptrs pa pb = if ltb pa pb then less else (if ltb pb pa then greater else equal)

unfoldable pub lksmith_lock_compare : ℕ → ℕ → Compared
unfolding compare_ptrs
lksmith_lock_compare = compare_ptrs

unfoldable pub lksmith_cond_compare : ℕ → ℕ → Compared
unfolding compare_ptrs
lksmith_cond_compare = compare_ptrs

-- It is the order of the numbers, so different nodes have different keys.
compare_ptrs-order :
    (pa pb : ℕ)
    → ((compare_ptrs pa pb ≡ less) ↔ (pa < pb))
      × ((compare_ptrs pa pb ≡ greater) ↔ (pb < pa))
      × ((compare_ptrs pa pb ≡ equal) ↔ (pa ≡ pb))
unfolding compare_ptrs
compare_ptrs-order pa pb = (ground arith, ground arith, ground arith)
