-- ===== src/Programs/Names.antt =====
-- thread_unit.c: a thread that sets its name and reads it again.
use lksmith.Base.{ℕ, List, [], ◌∷◌, none, some, if◌then◌else◌, done, ◌>>=◌}
use lksmith.Lock.{Text}
use lksmith.Tree.{TreeLib}
use lksmith.Holders.{same_text}
use lksmith.Ignore.{TextLib}
use lksmith.World.{TlsAnswers}
use lksmith.Api.{lksmith_set_thread_name, lksmith_get_thread_name}
use lksmith.Programs.{Program, Statement, passed, mismatch, called, expect_zero}

-- "my_thread"
abbrev pub my_thread : Text
my_thread = 109 ∷ 121 ∷ 95 ∷ 116 ∷ 104 ∷ 114 ∷ 101 ∷ 97 ∷ 100 ∷ []

module _ (T : TreeLib) (C : TextLib) (P : Program) where
  -- EXPECT_NOT_EQ of the name and a null pointer, and EXPECT_ZERO of strcmp.
  unfoldable pub expect_name : TlsAnswers → ℕ → Text → Statement T C P
  unfolding called
  expect_name a t name b = called T C P (lksmith_get_thread_name T C a t) b >>= λ r. done (
    elim r.0 [ none ↦ mismatch | some got ↦ if same_text name got then passed else mismatch ],
    r.1,
  )

  abbrev pub test_thread_name_set_and_get_impl : (ℕ → TlsAnswers) → ℕ → List (Statement T C P)
  test_thread_name_set_and_get_impl a t =
      expect_zero T C P (lksmith_set_thread_name T C (a 0) t my_thread)
      ∷ expect_name (a 1) t my_thread
      ∷ []
