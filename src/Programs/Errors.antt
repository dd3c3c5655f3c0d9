-- ===== src/Programs/Errors.antt =====
-- error_unit.c: threads that use locks wrongly, and the errors that are then recorded. The k-th call
-- of a test or of a thread gets the answers `a k` or `b k`; the semaphores, the main thread and the
-- created ones have numbers.
use lksmith.Base.{
  ℕ, zero, suc, ◌+◌, ◌-◌, ◌%◌, ◌==◌, false, true, List, [], ◌∷◌, ◌++◌, if◌then◌else◌,
}
use lksmith.Code.{Code, ebusy, edeadlk, eperm, ewouldblock}
use lksmith.Tree.{TreeLib}
use lksmith.Ignore.{TextLib}
use lksmith.Programs.{
  Program, Answers, Statement, expect_zero, expect_errno, expect_found, expect_answer, clear_errors,
  sem_init, sem_post, sem_wait, run_threads, mutex_init, mutex_destroy, mutex_lock, mutex_trylock,
  mutex_unlock, spin_init, spin_destroy, spin_lock, spin_unlock,
}

module _ (T : TreeLib) (C : TextLib) (P : Program) where
  abbrev pub inver_thread_a : (ℕ → Answers T C) → (t lock1 lock2 : ℕ) → List (Statement T C P)
  inver_thread_a a t lock1 lock2 =
      expect_zero T C P (mutex_lock T C P (a 0) t lock1)
      ∷ expect_zero T C P (mutex_lock T C P (a 1) t lock2)
      ∷ expect_zero T C P (mutex_unlock T C P (a 2) t lock2)
      ∷ sem_post T C P 1
      ∷ sem_wait T C P 2
      ∷ expect_zero T C P (mutex_unlock T C P (a 3) t lock1)
      ∷ []

  abbrev pub inver_thread_b : (ℕ → Answers T C) → (t lock1 lock2 : ℕ) → List (Statement T C P)
  inver_thread_b b t lock1 lock2 =
      sem_wait T C P 1
      ∷ expect_zero T C P (mutex_lock T C P (b 0) t lock2)
      ∷ expect_errno T C P ebusy (mutex_trylock T C P (b 1) t lock1)
      ∷ sem_post T C P 2
      ∷ expect_zero T C P (mutex_unlock T C P (b 2) t lock2)
      ∷ []

  -- The threads 1 and 2 take turns in the order `turns`.
  abbrev pub test_ab_inversion :
      (a b : ℕ → Answers T C) (turns : List ℕ) (lock1 lock2 : ℕ) → List (Statement T C P)
  test_ab_inversion a b turns lock1 lock2 =
      sem_init T C P 1
      ∷ sem_init T C P 2
      ∷ run_threads T C P 2 turns
          (λ i. if i == 0 then inver_thread_a a 1 lock1 lock2 else inver_thread_b b 2 lock1 lock2)
      ∷ expect_found T C P edeadlk true
      ∷ clear_errors T C P
      ∷ []

  abbrev pub test_destroy_while_same_thread_has_locked :
      (a : ℕ → Answers T C) (t p : ℕ) → List (Statement T C P)
  test_destroy_while_same_thread_has_locked a t p =
      expect_zero T C P (mutex_init T C P (a 0) t p false)
      ∷ expect_zero T C P (mutex_lock T C P (a 1) t p)
      ∷ expect_errno T C P ebusy (mutex_destroy T C P (a 2) t p)
      ∷ expect_found T C P ebusy true
      ∷ expect_zero T C P (mutex_unlock T C P (a 3) t p)
      ∷ expect_zero T C P (mutex_destroy T C P (a 4) t p)
      ∷ clear_errors T C P
      ∷ []

  abbrev pub test_destroy_helper1 : (ℕ → Answers T C) → (t p : ℕ) → List (Statement T C P)
  test_destroy_helper1 b t p =
      expect_zero T C P (mutex_lock T C P (b 0) t p)
      ∷ sem_post T C P 1
      ∷ sem_wait T C P 2
      ∷ expect_zero T C P (mutex_unlock T C P (b 1) t p)
      ∷ []

  -- The main thread `t` takes turns with the thread `u`, as number 0 and 1.
  abbrev pub test_destroy_while_other_thread_has_locked :
      (a b : ℕ → Answers T C) (turns : List ℕ) (t u p : ℕ) → List (Statement T C P)
  test_destroy_while_other_thread_has_locked a b turns t u p =
      sem_init T C P 1
      ∷ sem_init T C P 2
      ∷ run_threads T C P 2 turns (λ i.
        if i == 0
        then sem_wait T C P 1
          ∷ expect_errno T C P ebusy (mutex_destroy T C P (a 0) t p)
          ∷ expect_found T C P ebusy true
          ∷ sem_post T C P 2
          ∷ []
        else test_destroy_helper1 b u p)
      ∷ expect_zero T C P (mutex_destroy T C P (a 1) t p)
      ∷ clear_errors T C P
      ∷ []

  abbrev pub test_bad_unlock_helper1 : (ℕ → Answers T C) → (t p : ℕ) → List (Statement T C P)
  test_bad_unlock_helper1 b t p =
      expect_zero T C P (mutex_lock T C P (b 0) t p)
      ∷ sem_post T C P 1
      ∷ sem_wait T C P 2
      ∷ expect_zero T C P (mutex_unlock T C P (b 1) t p)
      ∷ []

  abbrev pub test_bad_unlock :
      (a b : ℕ → Answers T C) (turns : List ℕ) (t u p : ℕ) → List (Statement T C P)
  test_bad_unlock a b turns t u p =
      sem_init T C P 1
      ∷ sem_init T C P 2
      ∷ expect_zero T C P (mutex_init T C P (a 0) t p false)
      ∷ run_threads T C P 2 turns (λ i.
        if i == 0
        then sem_wait T C P 1
          ∷ expect_errno T C P eperm (mutex_unlock T C P (a 1) t p)
          ∷ expect_found T C P eperm true
          ∷ sem_post T C P 2
          ∷ []
        else test_bad_unlock_helper1 b u p)
      ∷ expect_zero T C P (mutex_destroy T C P (a 2) t p)
      ∷ clear_errors T C P
      ∷ []

  abbrev repeat : ℕ → Statement T C P → List (Statement T C P)
  repeat zero s = []
  repeat (suc n) s = s ∷ repeat n s

  -- `lock` is the array g_locks, `n` is g_bigenv_threads, and the thread has the number of its index.
  abbrev pub big_inversion_thread :
      (ℕ → Answers T C) → (n : ℕ) → (ℕ → ℕ) → (idx : ℕ) → List (Statement T C P)
  big_inversion_thread b n lock idx =
      let next = (idx + 1) % n in
      expect_zero T C P (mutex_lock T C P (b 0) idx (lock idx))
        ∷ sem_post T C P 0
        ∷ (if idx == 0
            then repeat (n - 1) (sem_wait T C P 2)
              ++ expect_errno T C P ebusy (mutex_trylock T C P (b 1) idx (lock next))
                ∷ expect_found T C P edeadlk true
                ∷ []
            else sem_wait T C P 1
              ∷ expect_errno T C P ebusy (mutex_trylock T C P (b 1) idx (lock next))
              ∷ sem_post T C P 2
              ∷ expect_zero T C P (mutex_lock T C P (b 2) idx (lock next))
              ∷ expect_zero T C P (mutex_unlock T C P (b 3) idx (lock next))
              ∷ [])
      ++ expect_zero T C P (mutex_unlock T C P (b 4) idx (lock idx)) ∷ []

  -- A loop over the locks below `n`.
  abbrev each : ℕ → (ℕ → Statement T C P) → List (Statement T C P)
  each zero s = []
  each (suc n) s = each n s ++ s n ∷ []

  -- The main thread `t` takes turns as number `n`.
  abbrev pub test_big_inversion :
      (a : ℕ → Answers T C) (b : ℕ → ℕ → Answers T C) (turns : List ℕ) (t n : ℕ)
      → (ℕ → ℕ)
      → List (Statement T C P)
  test_big_inversion a b turns t n lock =
      sem_init T C P 0
        ∷ sem_init T C P 1
        ∷ sem_init T C P 2
        ∷ each n (λ i. expect_zero T C P (mutex_init T C P (a i) t (lock i) false))
      ++ run_threads T C P (n + 1) turns (λ i.
        if i == n
        then repeat n (sem_wait T C P 0) ++ repeat (n - 1) (sem_post T C P 1)
        else big_inversion_thread (b i) n lock i)
        ∷ each n (λ i. expect_zero T C P (mutex_destroy T C P (a i) t (lock i)))
      ++ clear_errors T C P ∷ []

  abbrev pub test_take_sleeping_lock_while_holding_spin :
      (a : ℕ → Answers T C) (t p q : ℕ) → List (Statement T C P)
  test_take_sleeping_lock_while_holding_spin a t p q =
      expect_zero T C P (mutex_init T C P (a 0) t p false)
      ∷ expect_zero T C P (spin_init T C P (a 1) t q)
      ∷ expect_zero T C P (mutex_lock T C P (a 2) t p)
      ∷ expect_zero T C P (spin_lock T C P (a 3) t q)
      ∷ expect_zero T C P (spin_unlock T C P (a 4) t q)
      ∷ expect_zero T C P (mutex_unlock T C P (a 5) t p)
      ∷ expect_found T C P ewouldblock false
      ∷ expect_zero T C P (spin_lock T C P (a 6) t q)
      ∷ expect_zero T C P (mutex_lock T C P (a 7) t p)
      ∷ expect_zero T C P (mutex_unlock T C P (a 8) t p)
      ∷ expect_zero T C P (spin_unlock T C P (a 9) t q)
      ∷ expect_found T C P ewouldblock true
      ∷ expect_zero T C P (spin_lock T C P (a 10) t q)
      ∷ expect_zero T C P (mutex_lock T C P (a 11) t p)
      ∷ expect_zero T C P (mutex_unlock T C P (a 12) t p)
      ∷ expect_zero T C P (spin_unlock T C P (a 13) t q)
      ∷ expect_found T C P ewouldblock false
      ∷ expect_zero T C P (spin_destroy T C P (a 14) t q)
      ∷ expect_zero T C P (mutex_destroy T C P (a 15) t p)
      ∷ clear_errors T C P
      ∷ []

  -- `attr k` are the answers of the functions on attributes.
  abbrev pub test_recursion_on_nonrecursive :
      (a : ℕ → Answers T C) → (ℕ → Code) → (t p : ℕ) → List (Statement T C P)
  test_recursion_on_nonrecursive a attr t p =
      expect_answer T C P (attr 0)
      ∷ expect_answer T C P (attr 1)
      ∷ expect_zero T C P (mutex_init T C P (a 0) t p true)
      ∷ expect_zero T C P (mutex_lock T C P (a 1) t p)
      ∷ expect_errno T C P ebusy (mutex_trylock T C P (a 2) t p)
      ∷ expect_found T C P edeadlk true
      ∷ expect_zero T C P (mutex_unlock T C P (a 3) t p)
      ∷ expect_answer T C P (attr 2)
      ∷ expect_zero T C P (mutex_destroy T C P (a 4) t p)
      ∷ []
