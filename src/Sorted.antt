-- ===== src/Sorted.antt =====
-- The sorted `before` arrays of lock pointers (lksmith.c, lk_add_sorted and lk_remove_sorted). A
-- list of addresses stands for `(*arr)[0 .. *num)`; an array of size 0 and a null array are both
-- the empty list. The answer of the growing realloc is an argument; the shrinking one keeps the
-- entries whether it succeeds or not.
pub mod Laws
use lksmith.Base.{
  ℕ, zero, suc, ◌+◌, Bool, true, false, List, [], ◌∷◌, ◌++◌, Option, none, some, ◌==◌, ltb, take,
  drop, if◌then◌else◌,
}
use lksmith.Code.{Code, ok, err, enomem}
use lksmith.Held.{delete_at}

-- How the loop of lk_add_sorted ends: at an equal entry, or at the index for the new one.
pub data Place : Type 0 where
  present : Place
  at : ℕ → Place

-- for (i = 0; i < *num; i++), from index `i` over the entries that are left.
unfoldable pub find_place : ℕ → List ℕ → ℕ → Place
find_place i [] lk = at i
find_place i (a ∷ arr) lk =
    if a == lk then present else if ltb lk a then at i else find_place (i + 1) arr lk

-- The memmove that opens a gap at index `i`, and the write into it.
unfoldable pub insert_at : ℕ → ℕ → List ℕ → List ℕ
insert_at i lk arr = take i arr ++ lk ∷ drop i arr

unfoldable pub lk_add_sorted : Bool → List ℕ → ℕ → Code × List ℕ
lk_add_sorted grown arr lk = elim (find_place 0 arr lk) [
  | present ↦ (ok, arr)
  | at i ↦ if grown then (ok, insert_at i lk arr) else (err enomem, arr)
]

-- The loop of lk_remove_sorted: the index of `ak`, `none` where it returns or runs to the end.
pub find_entry : ℕ → List ℕ → ℕ → Option ℕ
find_entry i [] ak = none
find_entry i (a ∷ arr) ak =
    if a == ak then some i else if ltb ak a then none else find_entry (i + 1) arr ak

pub lk_remove_sorted : List ℕ → ℕ → List ℕ
lk_remove_sorted arr ak = elim (find_entry 0 arr ak) [ none ↦ arr | some i ↦ delete_at i arr ]
