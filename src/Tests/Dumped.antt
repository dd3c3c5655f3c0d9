-- ===== src/Tests/Dumped.antt =====
-- A dump that does not fit, and the dump of a tree of two locks.
use lksmith.Base.{ℕ, ◌+◌, ◌≡◌, refl, List, [], ◌∷◌, ◌++◌, arith, done}
use lksmith.Lock.{Text, Lock}
use lksmith.Dump.{lk_dump}
use lksmith.Dump.Laws.{Shows, lk_text, lk_dump-Shows}
use lksmith.Dump.Trees.{heading, ending, tree_print, Live, listed, tree_print-listed}
use lksmith.Tree.Assoc.{assoc_lib}
use lksmith.Tests.Graphs.{lock_a, two_locks, two_locks-IsWf}

-- A conversion to one character.
abbrev digit : ℕ → Text
digit a = (48 + a) ∷ []

lk_dump-Shows_example :
    Shows 20
      (lk_text 20 (omega arith) digit digit lock_a)
      (lk_dump digit digit 20 lock_a (record { text = []; off = 0 }))
lk_dump-Shows_example =
    lk_dump-Shows 20 (omega arith) digit digit lock_a (record { text = []; off = 0 }) []
      (refl, refl)

tree_print-listed_example :
    (locks : List Lock) × Live two_locks.heap (200 ∷ 100 ∷ []) locks
    × ((old : Text)
        → tree_print digit digit assoc_lib two_locks old
          ≡ done (heading ++ listed digit digit [] locks ++ ending))
tree_print-listed_example = tree_print-listed digit digit assoc_lib two_locks two_locks-IsWf
