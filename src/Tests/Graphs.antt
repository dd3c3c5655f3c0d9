-- ===== src/Tests/Graphs.antt =====
-- Small trees of locks: 10 and 20 are the pointers of two locks at the addresses 100 and 200.
use lksmith.Base.{
  ℕ, ◌≡◌, ◌≢◌, refl, ◌↔◌, ◌⊎◌, inl, inr, Bool, true, false, List, [], ◌∷◌, Option, none, some,
  arith, In, ◌==◌, if◌then◌else◌, Outcome, done, fault,
}
use lksmith.Code.{ok}
use lksmith.Lock.{Lock, Heap, store}
use lksmith.Report.{Report}
use lksmith.Tree.Assoc.{assoc_lib}
use lksmith.Search.{lksmith_search, search_all}
use lksmith.Search.Paint.{erase}
use lksmith.Search.Post.{Leads}
use lksmith.Graph.{
  Graph, IsWf, new_lock, inserted, lksmith_find, lk_add_before, lksmith_insert, lksmith_forget,
}
use lksmith.Graph.Walk.{lksmith_search_fresh}
use lksmith.Graph.Update.{IsWf-store, store-cases}
use lksmith.Sorted.{find_place, insert_at, lk_add_sorted}
use lksmith.Graph.Insert.{lksmith_insert-IsWf}
use lksmith.Graph.Remove.{Trimmed}
use lksmith.Graph.Forget.{lksmith_forget-IsWf}
use lksmith.Depends.{searched, same_lock, depend, depend_all, lksmith_prelock_process_depends}
use lksmith.Depends.Grow.{Extends}
use lksmith.Depends.Round.{inversions, Inverts}
use lksmith.Depends.Order.{Candidate, process_depends_lem}
use lksmith.Depends.Acyclic.{IsAcyclic, last, more, process_depends-IsAcyclic}

abbrev no_locks : Graph assoc_lib
no_locks = record { tree = []; heap = λ a. none; color = 0 }

no_locks-IsWf : IsWf assoc_lib no_locks
no_locks-IsWf = record {
  find-live = λ p a e. cc;
  live-find = λ a l e. cc;
  before-live = λ a l e. cc;
  before-IsSorted = λ a l e. cc;
  color-le = λ a l e. cc;
}

abbrev pub lock_a : Lock
lock_a = record {
  ptr = 10;
  props = record { nlock = 0; recursive = true; sleeper = true; spin_warn = false };
  color = 0;
  holders = [];
  before = [];
}

abbrev pub lock_b : Lock
lock_b = record lock_a { ptr = 20 }

abbrev one_lock : Graph assoc_lib
one_lock = record { tree = (10, 100) ∷ []; heap = store 100 lock_a (λ a. none); color = 0 }

abbrev pub two_locks : Graph assoc_lib
two_locks = record {
  tree = (20, 200) ∷ (10, 100) ∷ [];
  heap = store 200 lock_b one_lock.heap;
  color = 0;
}

one_lock-IsWf : IsWf assoc_lib one_lock
unfolding lksmith_insert inserted new_lock
one_lock-IsWf = (lksmith_insert-IsWf assoc_lib no_locks 10 100 true true no_locks-IsWf refl refl).2

pub two_locks-IsWf : IsWf assoc_lib two_locks
unfolding lksmith_insert inserted new_lock
two_locks-IsWf = (lksmith_insert-IsWf assoc_lib one_lock 20 200 true true one_lock-IsWf refl refl).2

-- Lock 10 was taken before lock 20.
abbrev ordered : Graph assoc_lib
ordered = record two_locks { heap = store 200 (record lock_b { before = 100 ∷ [] }) two_locks.heap }

ordered-IsWf : IsWf assoc_lib ordered
ordered-IsWf =
    IsWf-store assoc_lib two_locks 200 lock_b (record lock_b { before = 100 ∷ [] }) two_locks-IsWf
      refl refl tt (λ b m. live b m) (omega arith)
  where
    live : (b : ℕ) → In b (100 ∷ []) → (m : Lock) × (two_locks.heap b ≡ some m)
    live b (inl e) = (lock_a, rw e)
    live b (inr m) = absurd m

lksmith_insert-IsWf_example :
    let (code, out, g) = lksmith_insert assoc_lib (some 200) 20 true true one_lock in
    (code ≡ ok)
    × (out ≡ some 200)
    × IsWf assoc_lib g
    × (g.heap 200 ≡ some (new_lock 20 true true))
    × ((p : ℕ)
        → assoc_lib.find p g.tree ≡ (if 20 == p then some 200 else assoc_lib.find p one_lock.tree))
    × ((x : ℕ) → 200 ≢ x → g.heap x ≡ one_lock.heap x)
lksmith_insert-IsWf_example =
    lksmith_insert-IsWf assoc_lib one_lock 20 200 true true one_lock-IsWf refl refl

lksmith_forget-IsWf_example :
    (g : Graph assoc_lib) × (lksmith_forget assoc_lib 10 100 ordered ≡ done g)
    × IsWf assoc_lib g
    × (assoc_lib.find 10 g.tree ≡ none)
    × (g.heap 100 ≡ none)
    × ((x : ℕ) (m : Lock)
        → ordered.heap x ≡ some m
        → x ≢ 100
        → (m' : Lock) × (g.heap x ≡ some m') × Trimmed 100 (Unit {0}) m m')
lksmith_forget-IsWf_example =
    lksmith_forget-IsWf assoc_lib ordered 10 100 lock_a ordered-IsWf refl refl

abbrev searching : Graph assoc_lib
searching = record ordered { color = 1 }

searching-IsWf : IsWf assoc_lib searching
searching-IsWf =
    let w = ordered-IsWf in
    record {
      find-live = w.find-live;
      live-find = w.live-find;
      before-live = w.before-live;
      before-IsSorted = w.before-IsSorted;
      color-le = λ a l e. omega (arith, w.color-le a l e);
    }

searching_white : (x : ℕ) (l : Lock) → searching.heap x ≡ some l → l.color ≢ 1
searching_white x l e f = let h = (ordered-IsWf).color-le x l e in omega arith

lksmith_search_fresh_example :
    (found : Bool) × (h : Heap) × (lksmith_search 3 1 10 200 searching.heap ≡ done (found, h))
    × ((found ≡ true) ↔ ∥ Leads searching.heap 10 200 ∥₁)
    × IsWf assoc_lib (record searching { heap = h })
    × ((x : ℕ) → erase (h x) ≡ erase (searching.heap x))
lksmith_search_fresh_example =
    lksmith_search_fresh assoc_lib searching 10 200 (record lock_b { before = 100 ∷ [] })
      searching-IsWf refl searching_white

process_depends_lem_example :
    (g : Graph assoc_lib) × (rs : List Report) × (lksmith_prelock_process_depends assoc_lib
        (λ i. true)
        (20 ∷ [])
        100
        10
        ordered
      ≡ done (g, rs))
    × IsWf assoc_lib g
    × (g.tree ≡ ordered.tree)
    × ((h : ℕ) → In h (inversions rs) → In h (20 ∷ []) × Inverts assoc_lib 100 10 ordered h)
    × ((h : ℕ)
        → In h (20 ∷ [])
        → Inverts assoc_lib 100 10 ordered h
        → (k : ℕ) × In k (inversions rs))
    × ((x : ℕ) (m : Lock)
        → ordered.heap x ≡ some m
        → (m' : Lock) × (g.heap x ≡ some m')
          × Extends (λ b. (x ≡ 100) × Candidate assoc_lib 100 10 ordered (20 ∷ []) b) m m')
process_depends_lem_example =
    process_depends_lem assoc_lib 100 10 (λ i. true) (20 ∷ []) ordered lock_a ordered-IsWf refl refl
      (omega arith)

-- Lock 20 is taken while lock 10 is held.
abbrev nested : Graph assoc_lib
nested = record two_locks {
  heap =
      store 200 (record lock_b { before = 100 ∷ [] })
        (store 100 (record lock_a { color = 1 }) two_locks.heap);
  color = 1;
}

run_nested :
    lksmith_prelock_process_depends assoc_lib (λ i. true) (10 ∷ []) 200 20 two_locks
    ≡ done (nested, [])
unfolding lksmith_prelock_process_depends depend_all depend searched same_lock lksmith_find
    lksmith_search search_all lk_add_before lk_add_sorted find_place insert_at
run_nested = refl

two_locks-no_entry : (x : ℕ) (l : Lock) (z : ℕ) → two_locks.heap x ≡ some l → ¬ In z l.before
two_locks-no_entry x l z e m = outer (store-cases 200 x lock_b l one_lock.heap e)
  where
    inner : ((x ≡ 100) × (l ≡ lock_a)) ⊎ ((100 ≢ x) × (none ≡ some l)) → ⊥
    inner (inl (p, f)) = rw f at m
    inner (inr (n, f)) = cc f

    outer : ((x ≡ 200) × (l ≡ lock_b)) ⊎ ((200 ≢ x) × (one_lock.heap x ≡ some l)) → ⊥
    outer (inl (p, f)) = rw f at m
    outer (inr (n, f)) = inner (store-cases 100 x lock_a l (λ a. none) f)

two_locks-IsAcyclic : IsAcyclic two_locks.heap
two_locks-IsAcyclic x (last l e m) = two_locks-no_entry x l x e m
two_locks-IsAcyclic x (more l z e m c) = two_locks-no_entry x l z e m

process_depends-IsAcyclic_example : IsAcyclic nested.heap
process_depends-IsAcyclic_example =
    process_depends-IsAcyclic assoc_lib 200 20 (λ i. true) (10 ∷ []) two_locks nested lock_b []
      two_locks-IsWf refl refl (omega arith) run_nested refl two_locks-IsAcyclic

-- Locks 20 and 40 both lead to lock 10, through lock 30. With both held, taking lock 10 reports the
-- first only, since the search that succeeded has painted lock 30; and lock 40 enters the array of
-- lock 10, which closes a cycle.
abbrev shared : Graph assoc_lib
shared = record {
  tree = (40, 400) ∷ (30, 300) ∷ (20, 200) ∷ (10, 100) ∷ [];
  heap =
      store 400 (record lock_a { ptr = 40; before = 300 ∷ [] })
        (store 300 (record lock_a { ptr = 30; before = 100 ∷ [] })
          (store 200 (record lock_b { before = 300 ∷ [] }) one_lock.heap));
  color = 0;
}

abbrev reported : Outcome (Graph assoc_lib × List Report) → Option (List ℕ × List ℕ)
reported (done (g, rs)) = some (inversions rs, elim (g.heap 100) [ none ↦ [] | some l ↦ l.before ])
reported (fault f) = none

run_shared :
    reported (lksmith_prelock_process_depends assoc_lib (λ i. true) (20 ∷ 40 ∷ []) 100 10 shared)
    ≡ some (20 ∷ [], 400 ∷ [])
unfolding lksmith_prelock_process_depends depend_all depend searched same_lock lksmith_find
    lksmith_search search_all lk_add_before lk_add_sorted find_place insert_at
run_shared = refl
