-- ===== src/Programs.antt =====
-- The unit tests as programs that call the library: the EXPECT macros of test.h, the recording of
-- errors by a callback, and threads that run in turns.
pub mod Simple
pub mod Errors
pub mod Names
pub mod Skipping
pub mod Steps
pub mod Passes
pub mod Whole
use lksmith.Base.{
  ℕ, zero, suc, ◌==◌, Bool, List, [], ◌∷◌, Option, none, some, if◌then◌else◌, Outcome, done, ◌>>=◌,
  drop, length,
}
use lksmith.Code.{Code, Errno, err, failed}
use lksmith.Tree.{TreeLib}
use lksmith.Ignore.{TextLib}
use lksmith.Report.{Report}
use lksmith.World.{World, TlsAnswers}
use lksmith.Support.{find_recorded_error, clear_recorded_errors}
use lksmith.Handler.{
  MutexAnswers, TakeAnswers, GiveAnswers, Ran, pthread_mutex_init, pthread_mutex_destroy,
  pthread_mutex_lock, pthread_mutex_trylock, pthread_mutex_timedlock, pthread_mutex_unlock,
  pthread_spin_init, pthread_spin_destroy, pthread_spin_lock, pthread_spin_unlock,
}

-- semaphore.h; `none` means that the thread has to wait.
pub record SemLib : Type 1 where
  pub Sem : Type 0
  pub sem_init : ℕ → Sem
  pub sem_post : Sem → Sem
  pub sem_wait : Sem → Option Sem

-- How a statement of a test goes: on to the next, out of the function with a code or with another value
-- than 0, or the thread waits.
pub data Verdict : Type 0 where
  passed : Verdict
  returned : Code → Verdict
  mismatch : Verdict
  waits : Verdict

-- What the environment answers a call, of whichever function it is.
pub record Answers (T : TreeLib) (C : TextLib) : Type 0 where
  pub tls : TlsAnswers
  pub mutex : MutexAnswers
  pub take : TakeAnswers T C
  pub give : GiveAnswers T C
  pub memory : Option ℕ
  pub real : Code

-- The program: the values of errno.h, the callback that it gives to set_error_cb, semaphores, and the
-- types of g_compatible_with_errcheck.
pub record Program : Type 1 where
  pub sems : SemLib
  pub number : Errno → ℕ
  pub callback : ℕ → List ℕ → Outcome (List ℕ)
  pub types : List ℕ

module _ (T : TreeLib) (C : TextLib) (P : Program) where
  pub record Bench : Type 0 where
    pub world : World T
    pub recorded : List ℕ
    pub sems : ℕ → P.sems.Sem

  abbrev pub Statement : Type 0
  Statement = Bench → Outcome (Verdict × Bench)

  -- The callback gets the reports of a call.
  unfoldable pub deliver : List Report → List ℕ → Outcome (List ℕ)
  deliver [] recorded = done recorded
  deliver (r ∷ rs) recorded = P.callback (P.number r.code) recorded >>= λ errors. deliver rs errors

  unfoldable pub called {ℓ} :
      {R : Type ℓ} → (World T → Outcome (R × World T)) → Bench → Outcome (R × Bench)
  unfolding deliver
  called call b = call b.world >>= λ r.
      deliver (drop (length b.world.log) r.1.log) b.recorded >>= λ errors.
      done (r.0, record b { world = r.1; recorded = errors })

  -- A wrapper without its list of real calls.
  abbrev pub code_of : Outcome (Ran T C) → Outcome (Code × World T)
  code_of o = o >>= λ r. done (r.0, r.1)

  unfoldable pub expect_zero : (World T → Outcome (Code × World T)) → Statement
  unfolding called
  expect_zero call b =
      called call b >>= λ r. done (if failed r.0 then returned r.0 else passed, r.1)

  -- EXPECT_EQ of a code and an errno value.
  unfoldable pub expect_errno : Errno → (World T → Outcome (Code × World T)) → Statement
  unfolding called
  expect_errno e call b = called call b >>= λ r. done (same r.0, r.1)
    where
      same : Code → Verdict
      same (err f) = if P.number f == P.number e then passed else mismatch
      same _ = mismatch

  -- EXPECT_EQ(find_recorded_error(e), ...)
  unfoldable pub expect_found : Errno → Bool → Statement
  unfolding find_recorded_error
  expect_found e expected b =
      let (found, recorded) = find_recorded_error (P.number e) b.recorded in
      done (agree found expected, record b { recorded = recorded })
    where
      agree : Bool → Bool → Verdict
      agree x y = if x then (if y then passed else mismatch) else (if y then mismatch else passed)

  -- EXPECT_ZERO of a function outside the library.
  unfoldable pub expect_answer : Code → Statement
  expect_answer code b = done (if failed code then returned code else passed, b)

  unfoldable pub clear_errors : Statement
  unfolding clear_recorded_errors
  clear_errors b = done (passed, record b { recorded = clear_recorded_errors b.recorded })

  -- sem_init to 0
  unfoldable pub sem_init : ℕ → Statement
  sem_init k b =
      done (passed, record b { sems = λ j. if k == j then P.sems.sem_init 0 else b.sems j })

  unfoldable pub sem_post : ℕ → Statement
  sem_post k b =
      done
        (passed, record b { sems = λ j. if k == j then P.sems.sem_post (b.sems k) else b.sems j })

  unfoldable pub sem_wait : ℕ → Statement
  sem_wait k b = elim (P.sems.sem_wait (b.sems k)) [
    | none ↦ done (waits, b)
    | some s ↦ done (passed, record b { sems = λ j. if k == j then s else b.sems j })
  ]

  unfoldable pub run_all : List Statement → Statement
  run_all [] b = done (passed, b)
  run_all (s ∷ rest) b =
      s b >>= λ r. elim r.0 [ passed ↦ run_all rest r.1 | other ↦ done (other, r.1) ]

  -- The threads that were created, each with the statements that it has left.
  abbrev pub Threads : Type 0
  Threads = ℕ → List Statement

  -- The threads take turns; a turn of one that waits or has ended changes nothing.
  unfoldable pub interleave : List ℕ → Threads → Bench → Outcome (Verdict × Threads × Bench)
  interleave [] threads b = done (passed, threads, b)
  interleave (i ∷ turns) threads b = elim (threads i) [
    | [] ↦ interleave turns threads b
    | s ∷ rest ↦ s b >>= λ r. elim r.0 [
      | passed ↦ interleave turns (λ j. if i == j then rest else threads j) r.1
      | waits ↦ interleave turns threads b
      | other ↦ done (other, threads, r.1)
    ]
  ]

  -- pthread_join of threads that return 0.
  unfoldable pub joined : ℕ → Threads → Verdict
  joined zero threads = passed
  joined (suc n) threads = elim (threads n) [ [] ↦ joined n threads | s ∷ rest ↦ waits ]

  -- `n` threads are created, run in turns and are joined.
  unfoldable pub run_threads : ℕ → List ℕ → Threads → Statement
  unfolding interleave joined
  run_threads n turns threads b = interleave turns threads b >>= λ (v, left, b'). elim v [
    | passed ↦ done (joined n left, b')
    | other ↦ done (other, b')
  ]

  module _ (a : Answers T C) (t ptr : ℕ) where
    abbrev pub mutex_init : Bool → World T → Outcome (Code × World T)
    mutex_init attr w = code_of (pthread_mutex_init T C P.types a.mutex attr t ptr w)

    abbrev pub mutex_destroy : World T → Outcome (Code × World T)
    mutex_destroy w = code_of (pthread_mutex_destroy T C a.tls a.real t ptr w)

    abbrev pub mutex_lock : World T → Outcome (Code × World T)
    mutex_lock w = code_of (pthread_mutex_lock T C a.take t ptr w)

    abbrev pub mutex_trylock : World T → Outcome (Code × World T)
    mutex_trylock w = code_of (pthread_mutex_trylock T C a.take t ptr w)

    abbrev pub mutex_timedlock : World T → Outcome (Code × World T)
    mutex_timedlock w = code_of (pthread_mutex_timedlock T C a.take t ptr w)

    abbrev pub mutex_unlock : World T → Outcome (Code × World T)
    mutex_unlock w = code_of (pthread_mutex_unlock T C a.give t ptr w)

    abbrev pub spin_init : World T → Outcome (Code × World T)
    spin_init w = code_of (pthread_spin_init T C a.tls a.memory a.real t ptr w)

    abbrev pub spin_destroy : World T → Outcome (Code × World T)
    spin_destroy w = code_of (pthread_spin_destroy T C a.tls a.real t ptr w)

    abbrev pub spin_lock : World T → Outcome (Code × World T)
    spin_lock w = code_of (pthread_spin_lock T C a.take t ptr w)

    abbrev pub spin_unlock : World T → Outcome (Code × World T)
    spin_unlock w = code_of (pthread_spin_unlock T C a.give t ptr w)
