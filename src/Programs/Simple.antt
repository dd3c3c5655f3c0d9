-- ===== src/Programs/Simple.antt =====
-- simple_unit.c: one thread, and locks that nothing is wrong with. The k-th call of a test gets the
-- answers `a k`; `t` is the thread and `p` the mutex or spin lock.
use lksmith.Base.{ℕ, false, true, List, [], ◌∷◌, ◌++◌, Option, none, some}
use lksmith.Code.{Code, Errno}
use lksmith.Tree.{TreeLib}
use lksmith.Ignore.{TextLib}
use lksmith.Support.{Timespec, get_current_timespec, timespec_add_milli}
use lksmith.Programs.{
  Program, Answers, Statement, expect_zero, expect_answer, mutex_init, mutex_destroy, mutex_lock,
  mutex_trylock, mutex_timedlock, mutex_unlock, spin_init, spin_destroy,
}

-- The time of day, if it was read, and 50 on top of it.
unfoldable pub deadline : Option Timespec → Option Timespec
unfolding timespec_add_milli
deadline none = none
deadline (some ts) = some (timespec_add_milli ts 50)

module _ (T : TreeLib) (C : TextLib) (P : Program) (a : ℕ → Answers T C) (t p : ℕ) where
  abbrev pub test_mutex_init_teardown : List (Statement T C P)
  test_mutex_init_teardown =
      expect_zero T C P (mutex_init T C P (a 0) t p false)
      ∷ expect_zero T C P (mutex_destroy T C P (a 1) t p)
      ∷ []

  -- The mutex is filled by PTHREAD_MUTEX_INITIALIZER.
  abbrev pub test_mutex_static_init_teardown : List (Statement T C P)
  test_mutex_static_init_teardown = expect_zero T C P (mutex_destroy T C P (a 0) t p) ∷ []

  abbrev pub test_spin_init_teardown : List (Statement T C P)
  test_spin_init_teardown =
      expect_zero T C P (spin_init T C P (a 0) t p)
      ∷ expect_zero T C P (spin_destroy T C P (a 1) t p)
      ∷ []

  -- `clock` and `errno` are what gettimeofday answers, and `timed` what pthread_mutex_timedlock gets for
  -- the time that it waits until.
  abbrev pub test_mutex_lock_simple :
      Option (ℕ × ℕ) → Errno → (Option Timespec → Answers T C) → List (Statement T C P)
  test_mutex_lock_simple clock errno timed =
      expect_zero T C P (mutex_init T C P (a 0) t p false)
      ∷ expect_zero T C P (mutex_lock T C P (a 1) t p)
      ∷ expect_zero T C P (mutex_unlock T C P (a 2) t p)
      ∷ expect_zero T C P (mutex_lock T C P (a 3) t p)
      ∷ expect_zero T C P (mutex_unlock T C P (a 4) t p)
      ∷ expect_zero T C P (mutex_trylock T C P (a 5) t p)
      ∷ expect_zero T C P (mutex_unlock T C P (a 6) t p)
      ∷ expect_answer T C P (get_current_timespec clock errno).0
      ∷ expect_zero T C P
          (mutex_timedlock T C P (timed (deadline (get_current_timespec clock errno).1)) t p)
      ∷ expect_zero T C P (mutex_unlock T C P (a 8) t p)
      ∷ expect_zero T C P (mutex_destroy T C P (a 9) t p)
      ∷ []

  abbrev pub test_mutex_lock_simple_static : List (Statement T C P)
  test_mutex_lock_simple_static =
      expect_zero T C P (mutex_lock T C P (a 0) t p)
      ∷ expect_zero T C P (mutex_unlock T C P (a 1) t p)
      ∷ expect_zero T C P (mutex_destroy T C P (a 2) t p)
      ∷ []

  abbrev pub test_spin_lock_simple : List (Statement T C P)
  test_spin_lock_simple =
      expect_zero T C P (mutex_init T C P (a 0) t p false)
      ∷ expect_zero T C P (mutex_lock T C P (a 1) t p)
      ∷ expect_zero T C P (mutex_unlock T C P (a 2) t p)
      ∷ expect_zero T C P (mutex_lock T C P (a 3) t p)
      ∷ expect_zero T C P (mutex_unlock T C P (a 4) t p)
      ∷ expect_zero T C P (mutex_destroy T C P (a 5) t p)
      ∷ []

  -- `attr k` are the answers of the functions on attributes.
  abbrev pub test_recursive_mutex : (ℕ → Code) → List (Statement T C P)
  test_recursive_mutex attr =
      expect_answer T C P (attr 0)
      ∷ expect_answer T C P (attr 1)
      ∷ expect_zero T C P (mutex_init T C P (a 0) t p true)
      ∷ expect_zero T C P (mutex_lock T C P (a 1) t p)
      ∷ expect_zero T C P (mutex_lock T C P (a 2) t p)
      ∷ expect_zero T C P (mutex_unlock T C P (a 3) t p)
      ∷ expect_zero T C P (mutex_unlock T C P (a 4) t p)
      ∷ expect_answer T C P (attr 2)
      ∷ expect_zero T C P (mutex_destroy T C P (a 5) t p)
      ∷ []

module _ (T : TreeLib) (C : TextLib) (P : Program) where
  -- The i-th test gets the answers `a i`, and its locks are at `p i`. EXPECT_ZERO of a test goes on after
  -- a test that passes.
  abbrev pub main :
      (a : ℕ → ℕ → Answers T C) (t : ℕ) (p : ℕ → ℕ) (clock : Option (ℕ × ℕ)) (errno : Errno)
      → (Option Timespec → Answers T C)
      → (ℕ → Code)
      → List (Statement T C P)
  main a t p clock errno timed attr =
      test_mutex_init_teardown T C P (a 0) t (p 0)
      ++ test_mutex_static_init_teardown T C P (a 1) t (p 1)
      ++ test_mutex_init_teardown T C P (a 2) t (p 2)
      ++ test_spin_init_teardown T C P (a 3) t (p 3)
      ++ test_mutex_lock_simple T C P (a 4) t (p 4) clock errno timed
      ++ test_mutex_lock_simple_static T C P (a 5) t (p 5)
      ++ test_spin_lock_simple T C P (a 6) t (p 6)
      ++ test_recursive_mutex T C P (a 7) t (p 7) attr
