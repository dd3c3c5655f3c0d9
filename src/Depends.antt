-- ===== src/Depends.antt =====
-- The order check before a lock is taken (lksmith.c, lksmith_prelock_process_depends).
pub mod Grow
pub mod Round
pub mod Order
pub mod Acyclic
pub mod Link
use lksmith.Base.{
  ℕ, suc, ◌+◌, ◌%◌, ◌^◌, Bool, true, false, List, [], ◌∷◌, ◌++◌, Option, none, some, ◌==◌,
  if◌then◌else◌, length, Outcome, done, fault, dangling, ◌>>=◌,
}
use lksmith.Code.{enomem, edeadlk}
use lksmith.Lock.{Lock, Heap}
use lksmith.Tree.{TreeLib}
use lksmith.Graph.{Graph, lksmith_find, lk_add_before}
use lksmith.Report.{Report, unknown_held, already_held, inversion}
use lksmith.Search.{lksmith_search}

module _ (T : TreeLib) where
  -- The end of the loop's body, after lksmith_search: an inversion is reported, or the held lock
  -- `ak` goes into the `before` array of `lk`.
  unfoldable pub searched :
      Bool → ℕ → ℕ → ℕ → ℕ → Bool × Heap → Graph T → Outcome (Graph T × List Report)
  searched grown lk ptr held ak (true, heap) g =
      done (record g { heap = heap }, record { code = edeadlk; message = inversion ptr held } ∷ [])
  searched grown lk ptr held ak (false, heap) g =
      lk_add_before T grown lk ak (record g { heap = heap }) >>= λ g'. done (g', [])

  -- The body for a held lock that is `lk` itself.
  unfoldable pub same_lock : ℕ → Option Lock → Graph T → Outcome (Graph T × List Report)
  same_lock ptr none g = fault dangling
  same_lock ptr (some l) g = done (
    g,
    if l.props.recursive then [] else record { code = edeadlk; message = already_held ptr } ∷ [],
  )

  -- One round of the loop, for `held` and the answer `grown` of realloc. The search has more fuel
  -- than the tree has locks.
  unfoldable pub depend : Bool → ℕ → ℕ → ℕ → Graph T → Outcome (Graph T × List Report)
  unfolding searched same_lock
  depend grown lk ptr held g = elim (lksmith_find T held g) [
    | none ↦ done (g, record { code = enomem; message = unknown_held ptr held } ∷ [])
    | some ak ↦
        if ak == lk
        then same_lock ptr (g.heap ak) g
        else lksmith_search (suc (length (T.elements g.tree))) g.color ptr ak g.heap >>= λ r.
            searched grown lk ptr held ak r g
  ]

  -- The loop over `tls->held`; `grow i` is what realloc answers in round `i`.
  unfoldable pub depend_all :
      (ℕ → Bool) → ℕ → ℕ → ℕ → List ℕ → Graph T → Outcome (Graph T × List Report)
  depend_all grow i lk ptr [] g = done (g, [])
  depend_all grow i lk ptr (held ∷ rest) g = depend (grow i) lk ptr held g >>= λ r.
      depend_all grow (suc i) lk ptr rest r.0 >>= λ s. done (s.0, r.1 ++ s.1)

  -- g_color is a uint64_t.
  unfoldable pub lksmith_prelock_process_depends :
      (ℕ → Bool) → List ℕ → ℕ → ℕ → Graph T → Outcome (Graph T × List Report)
  unfolding depend_all
  lksmith_prelock_process_depends grow held lk ptr g =
      depend_all grow 0 lk ptr held (record g { color = (g.color + 1) % 2 ^ 64 })
