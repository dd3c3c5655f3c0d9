-- ===== src/Graph.antt =====
-- The tree of locks and the order graph of their `before` arrays (lksmith.c, g_tree, g_color,
-- lksmith_insert, lksmith_find, lk_add_before and lk_remove_before).
pub mod Walk
pub mod Update
pub mod Insert
pub mod Remove
pub mod Forget
use lksmith.Base.{
  ℕ, ◌≡◌, ◌<◌, ◌≤◌, Bool, false, List, [], Option, none, some, ◌==◌, if◌then◌else◌, In, Outcome,
  done, fault, dangling, ◌>>=◌, ◌∷◌,
}
use lksmith.Code.{Code, ok, err, enomem, eexist}
use lksmith.Lock.{Lock, Heap, Holder, store}
use lksmith.Sorted.{lk_add_sorted, lk_remove_sorted}
use lksmith.Sorted.Laws.{IsSorted}
use lksmith.Tree.{TreeLib}

pub record Graph (T : TreeLib) : Type 0 where
  pub tree : T.Tree
  pub heap : Heap
  pub color : ℕ

-- A lock structure as lksmith_insert fills it after calloc.
unfoldable pub new_lock : ℕ → Bool → Bool → Lock
new_lock ptr recursive sleeper = record {
  ptr = ptr;
  props = record { nlock = 0; recursive = recursive; sleeper = sleeper; spin_warn = false };
  color = 0;
  holders = [];
  before = [];
}

module _ (T : TreeLib) where
  -- What follows RB_INSERT, whose result is `bk`.
  unfoldable pub inserted : Option ℕ → T.Tree → ℕ → Lock → Graph T → Code × Option ℕ × Graph T
  inserted (some bk) tree ak l g = (err eexist, none, record g { tree = tree })
  inserted none tree ak l g = (ok, some ak, record g { tree = tree; heap = store ak l g.heap })

  -- `mem` is the answer of calloc. The second result is what `*lk` is set to, on success.
  unfoldable pub lksmith_insert : Option ℕ → ℕ → Bool → Bool → Graph T → Code × Option ℕ × Graph T
  unfolding new_lock inserted
  lksmith_insert none ptr recursive sleeper g = (err enomem, none, g)
  lksmith_insert (some ak) ptr recursive sleeper g =
      let (bk, tree) = T.insert ptr ak g.tree in
      inserted bk tree ak (new_lock ptr recursive sleeper) g

  unfoldable pub lksmith_find : ℕ → Graph T → Option ℕ
  lksmith_find ptr g = T.find ptr g.tree

  -- The result of lk_add_sorted is what the caller of lk_add_before ignores.
  unfoldable pub lk_add_before : Bool → ℕ → ℕ → Graph T → Outcome (Graph T)
  lk_add_before grown lk ak g = elim (g.heap lk) [
    | none ↦ fault dangling
    | some l ↦ done (record g {
      heap = store lk (record l { before = (lk_add_sorted grown l.before ak).1 }) g.heap;
    })
  ]

  -- lk_remove_before on the structure at `ak`.
  pub lk_remove_before : ℕ → ℕ → Heap → Outcome Heap
  lk_remove_before ak lk h = elim (h ak) [
    | none ↦ fault dangling
    | some l ↦ done (store ak (record l { before = lk_remove_sorted l.before lk }) h)
  ]

  -- The RB_FOREACH of lksmith_destroy.
  pub remove_before_all : List ℕ → ℕ → Heap → Outcome Heap
  unfolding lk_remove_before
  remove_before_all [] lk h = done h
  remove_before_all (ak ∷ nodes) lk h =
      lk_remove_before ak lk h >>= λ h'. remove_before_all nodes lk h'

  -- The end of lksmith_destroy: the lock `lk` with the pointer `ptr` leaves the tree and all `before`
  -- arrays, and its memory is freed.
  unfoldable pub lksmith_forget : ℕ → ℕ → Graph T → Outcome (Graph T)
  unfolding remove_before_all
  lksmith_forget ptr lk g =
      let tree = T.remove ptr g.tree in
      remove_before_all (T.elements tree) lk g.heap >>= λ h.
      done (record g { tree = tree; heap = λ b. if lk == b then none else h b })

  -- Between calls: the tree and the heap have the same locks, under the right keys; every `before`
  -- array is sorted and names live locks; and no colour is newer than g_color.
  pub record IsWf (g : Graph T) : Type 0 where
    pub find-live :
        (p a : ℕ) → T.find p g.tree ≡ some a → (l : Lock) × (g.heap a ≡ some l) × (l.ptr ≡ p)
    pub live-find : (a : ℕ) (l : Lock) → g.heap a ≡ some l → T.find l.ptr g.tree ≡ some a
    pub before-live :
        (a : ℕ) (l : Lock)
        → g.heap a ≡ some l
        → (b : ℕ) → In b l.before
        → (m : Lock) × (g.heap b ≡ some m)
    pub before-IsSorted : (a : ℕ) (l : Lock) → g.heap a ≡ some l → IsSorted l.before
    pub color-le : (a : ℕ) (l : Lock) → g.heap a ≡ some l → l.color ≤ g.color
