-- ===== src/Search.antt =====
-- The depth-first search through the `before` arrays (lksmith.c, lksmith_search). The fuel bounds
-- the depth of the recursion.
pub mod Paint
pub mod Post
pub mod Total
use lksmith.Base.{
  ℕ, zero, suc, Bool, true, false, List, [], ◌∷◌, Option, none, some, ◌==◌, if◌then◌else◌, Outcome,
  done, fault, dangling, out_of_fuel, ◌>>=◌,
}
use lksmith.Lock.{Lock, Heap, store}

-- The loop over `before`, for a search `visit` of one entry: it returns at the first hit.
unfoldable pub search_all :
    (ℕ → Heap → Outcome (Bool × Heap)) → List ℕ → Heap → Outcome (Bool × Heap)
search_all visit [] h = done (false, h)
search_all visit (b ∷ before) h =
    visit b h >>= λ r. elim r.0 [ true ↦ done (true, r.1) | false ↦ search_all visit before r.1 ]

-- lksmith_search(lk, start), with the value of g_color.
unfoldable pub lksmith_search : ℕ → ℕ → ℕ → ℕ → Heap → Outcome (Bool × Heap)
lksmith_search zero color start lk h = fault out_of_fuel
lksmith_search (suc fuel) color start lk h = elim (h lk) [
  | none ↦ fault dangling
  | some l ↦
      let paint = store lk (record l { color = color }) h in
      let rest = search_all (lksmith_search fuel color start) l.before paint in
      if l.ptr == start then done (true, h) else if l.color == color then done (false, h) else rest
]
