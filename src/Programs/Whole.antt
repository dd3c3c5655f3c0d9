-- ===== src/Programs/Whole.antt =====
-- simple_unit.c with real functions that succeed: its tests pass, one statement after the other.
use lksmith.Base.{
  ℕ, suc, ◌*◌, Option, ◌≡◌, refl, ◌∙◌, true, false, List, [], ◌∷◌, some, Outcome, done, take, drop,
  length,
}
use lksmith.Code.{Errno, ok}
use lksmith.Lock.{Text}
use lksmith.Tree.{TreeLib}
use lksmith.Ignore.{TextLib}
use lksmith.Report.{Report}
use lksmith.World.{World, Tls}
use lksmith.Support.{Timespec, get_current_timespec, timespec_add_milli}
use lksmith.Handler.{
  Real, Ran, mutex_lock, mutex_trylock, mutex_timedlock, mutex_unlock, mutex_destroy, take_lock,
  give_lock, pthread_mutex_lock, pthread_mutex_trylock, pthread_mutex_timedlock,
  pthread_mutex_unlock, pthread_mutex_init, pthread_mutex_destroy,
}
use lksmith.Programs.{
  Program, Answers, Bench, Statement, passed, code_of, run_all, expect_zero, expect_answer, called,
  deliver,
}
use lksmith.Programs.Steps.{Free, take_lock-Locked, give_lock-Free}
use lksmith.Programs.Passes.{Unknown, mutex_init-Free, mutex_destroy-Unknown}
use lksmith.Programs.Simple.{deadline, test_mutex_lock_simple}

drop-all : {A : Type 0} (xs : List A) → drop (length xs) xs ≡ []
drop-all [] = refl
drop-all (x ∷ xs) = drop-all xs

-- Every real function succeeds, there is memory, and no other thread runs meanwhile.
pub record Succeeds (T : TreeLib) (C : TextLib) (lk : ℕ) (a : Answers T C) : Type 0 where
  pub attr_init : a.mutex.attr_init ≡ ok
  pub settype : a.mutex.settype ≡ ok
  pub mutex_real : a.mutex.real ≡ ok
  pub memory : a.mutex.memory ≡ some lk
  pub frames : List Text
  pub traced : a.take.pre.frames ≡ some frames
  pub held_memory : a.take.held_memory ≡ true
  pub take_real : a.take.real ≡ ok
  pub take_alone : (w : World T) → a.take.meanwhile w ≡ w
  pub give_real : a.give.real ≡ ok
  pub give_alone : (w : World T) → a.give.meanwhile w ≡ w
  pub real : a.real ≡ ok

module _ (T : TreeLib) (C : TextLib) (P : Program) (log : List Report) where
  -- A call that returns 0 and logs nothing.
  goes_on :
      (call : World T → Outcome (Ran T C)) (calls : List Real) (rest : List (Statement T C P))
      (b : Bench T C P) (w : World T)
      → call b.world ≡ done (ok, w, calls)
      → b.world.log ≡ log
      → w.log ≡ log
      → run_all T C P (expect_zero T C P (λ w. code_of T C P (call w)) ∷ rest) b
        ≡ run_all T C P rest (record b { world = w })
  unfolding run_all expect_zero called deliver
  goes_on call calls rest b w e before after =
      let same : drop (length b.world.log) w.log ≡ [] = rw (before, after) (drop-all log) in
      rw (run_all, expect_zero, called, e, same, deliver) refl

  -- The statements pass, and leave what they recorded and the semaphores alone.
  abbrev pub Passes : (World T → Type 0) → List (Statement T C P) → Bench T C P → Type 0
  Passes Q ss b = (w : World T) × (run_all T C P ss b ≡ done (passed, record b { world = w })) × Q w

  module _ (t lk p : ℕ) (tls : Tls) (on : tls.intercept ≡ true) (empty : tls.held ≡ [])
      (spins : tls.num_spins ≡ 0) (fits : take 15 tls.name ≡ tls.name) (Q : World T → Type 0) where
    -- Taking the mutex and giving it back.
    round :
        (fn gn : Real) (a b : Answers T C) (n : ℕ) (rest : List (Statement T C P))
        (bench : Bench T C P)
        → Succeeds T C lk a
        → Succeeds T C lk b
        → Free T C t lk p tls log (suc n) bench.world
        → ((w : World T) → Free T C t lk p tls log n w → Passes Q rest (record bench { world = w }))
        → Passes Q
            (expect_zero T C P (λ w. code_of T C P (take_lock T C fn a.take t p true w))
              ∷ expect_zero T C P (λ w. code_of T C P (give_lock T C gn b.give t p w))
              ∷ rest)
            bench
    round fn gn a b n rest bench good well free later =
        let (w1, e1, had) =
          take_lock-Locked T C t lk p tls log on empty spins fits fn a.take good.frames n
            bench.world good.traced good.held_memory good.take_real good.take_alone free in
        let (w2, e2, back) =
          give_lock-Free T C t lk p tls log on empty spins fits gn b.give n w1 well.give_real
            well.give_alone had in
        let (w3, run, q) = later w2 back in
        (
          w3,
          goes_on (take_lock T C fn a.take t p true) _ _ bench w1 e1 free.quiet had.quiet
              ∙ goes_on (give_lock T C gn b.give t p) _ _ (record bench { world = w1 }) w2 e2
                  had.quiet back.quiet
              ∙ run,
          q,
        )

    -- The end of a test.
    destroyed :
        (a : Answers T C) (n : ℕ) (bench : Bench T C P)
        → Succeeds T C lk a
        → Free T C t lk p tls log n bench.world
        → Passes
            (Unknown T C t lk p tls log n)
            (expect_zero T C P (λ w. code_of T C P (pthread_mutex_destroy T C a.tls a.real t p w))
              ∷ [])
            bench
    unfolding run_all
    destroyed a n bench good free =
        let (w, e, u) = mutex_destroy-Unknown T C t lk p tls log on a.tls n bench.world free in
        (
          w,
          goes_on (pthread_mutex_destroy T C a.tls a.real t p) (mutex_destroy ∷ []) [] bench w
              (rw good.real e) free.quiet u.quiet,
          u,
        )

  answered_ok :
      (rest : List (Statement T C P)) (b : Bench T C P)
      → run_all T C P (expect_answer T C P ok ∷ rest) b ≡ run_all T C P rest b
  unfolding run_all expect_answer
  answered_ok rest b = refl

  -- The test of simple_unit.c passes and records no error: it initializes a mutex, takes and gives it back four times, twice with
  -- pthread_mutex_lock and then with pthread_mutex_trylock and pthread_mutex_timedlock, and destroys
  -- it; the mutex is then as unknown as before, the storage of the thread is as before and the graph
  -- well-formed. (For a thread that has its storage already and holds nothing, with a name that fits
  -- its buffer, an unknown mutex, a well-formed graph and a colour counter that does not wrap; with
  -- memory, real functions that succeed, pthread_mutex_timedlock for the time of day and 50 on top, and
  -- no other thread in between.)
  pub test_mutex_lock_simple-passed :
      (t lk p n : ℕ) (tls : Tls) (a : ℕ → Answers T C) (clock : ℕ × ℕ) (errno : Errno)
      (timed : Option Timespec → Answers T C) (b : Bench T C P)
      → tls.intercept ≡ true
      → tls.held ≡ []
      → tls.num_spins ≡ 0
      → take 15 tls.name ≡ tls.name
      → ((k : ℕ) → Succeeds T C lk (a k))
      → Succeeds T C lk (
          timed
            (some (timespec_add_milli (record { tv_sec = clock.0; tv_nsec = clock.1 * 1000 }) 50)))
      → Unknown T C t lk p tls log (suc (suc (suc (suc n)))) b.world
      → Passes
          (Unknown T C t lk p tls log n)
          (test_mutex_lock_simple T C P a t p (some clock) errno timed)
          b
  unfolding pthread_mutex_lock pthread_mutex_trylock pthread_mutex_timedlock pthread_mutex_unlock
      get_current_timespec deadline
  test_mutex_lock_simple-passed t lk p n tls a clock errno timed b on empty spins fits good in_time
        start =
      let (w1, e1, f1) =
        mutex_init-Free T C t lk p tls log on P.types (a 0).mutex _ b.world (good 0).attr_init
          (good 0).settype (good 0).mutex_real (good 0).memory start in
      let r = round t lk p tls on empty spins fits (Unknown T C t lk p tls log n) in
      let (w2, run, u) =
        r mutex_lock mutex_unlock (a 1) (a 2) _ _ (record b { world = w1 }) (good 1) (good 2) f1
          (λ w f.
            r mutex_lock mutex_unlock (a 3) (a 4) _ _ (record b { world = w }) (good 3) (good 4) f
              (λ w f.
                r mutex_trylock mutex_unlock (a 5) (a 6) _ _ (record b { world = w }) (good 5)
                  (good 6) f
                  (λ w f. read w _ (
                    r mutex_timedlock mutex_unlock _ (a 8) n _ (record b { world = w }) in_time
                      (good 8) f
                      (λ w f.
                        destroyed t lk p tls on empty spins fits (Unknown T C t lk p tls log n)
                          (a 9) n (record b { world = w }) (good 9) f))))) in
      (
        w2,
        goes_on (pthread_mutex_init T C P.types (a 0).mutex false t p) _ _ b w1 e1 start.quiet
              f1.quiet
            ∙ run,
        u,
      )
    where
      read :
          (w : World T)
          → (rest : List (Statement T C P))
          → Passes (Unknown T C t lk p tls log n) rest (record b { world = w })
          → Passes
              (Unknown T C t lk p tls log n)
              (expect_answer T C P ok ∷ rest)
              (record b { world = w })
      read w rest (w', run, u) = (w', answered_ok rest (record b { world = w }) ∙ run, u)
