-- ===== src/Held.antt =====
-- The list of held locks in thread-local storage (lksmith.c, tls_append_held, tls_remove_held and
-- tls_contains_lid). `held` stands for the `num_held` entries of `tls->held`, oldest first; the
-- answer of realloc is an argument, `true` if there is memory.
pub mod Laws
use lksmith.Base.{
  ℕ, zero, suc, Bool, true, false, List, [], ◌∷◌, ◌++◌, Option, none, some, ◌==◌, length, get_elem?,
  take, drop, if◌then◌else◌,
}
use lksmith.Code.{Code, ok, err, enomem, enoent}

-- The loop reads `held[num_held]` through the array that realloc returned.
unfoldable pub tls_append_held : Bool → List ℕ → ℕ → Code × List ℕ
tls_append_held grown held ptr = if grown then (ok, held ++ ptr ∷ []) else (err enomem, held)

-- Whether `held[i]` is `ptr`.
abbrev pub holds_at : List ℕ → ℕ → ℕ → Bool
holds_at held i ptr = elim (get_elem? held i) [ none ↦ false | some p ↦ p == ptr ]

-- for (i = n - 1; i >= 0; i--): the index at which the loop breaks, `none` if it runs below 0.
pub find_down : ℕ → List ℕ → ℕ → Option ℕ
find_down zero held ptr = none
find_down (suc i) held ptr = if holds_at held i ptr then some i else find_down i held ptr

-- The memmove that closes the gap at index `i`.
abbrev pub delete_at : ℕ → List ℕ → List ℕ
delete_at i held = take i held ++ drop (suc i) held

unfoldable pub tls_remove_held : List ℕ → ℕ → Code × List ℕ
unfolding find_down
tls_remove_held held ptr = elim (find_down (length held) held ptr) [
  | none ↦ (err enoent, held)
  | some i ↦ (ok, delete_at i held)
]

-- for (i = 0; i < num_held; i++)
unfoldable pub tls_contains_lid : List ℕ → ℕ → Bool
tls_contains_lid [] ptr = false
tls_contains_lid (p ∷ held) ptr = if p == ptr then true else tls_contains_lid held ptr
