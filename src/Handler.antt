-- ===== src/Handler.antt =====
-- The wrappers of the pthreads functions (handler.c): mutexes and spin locks. What a real pthreads
-- function answers is an argument, and each wrapper gives the list of the real functions that it
-- called with the lock. While a real function blocks, other threads run: their steps are `meanwhile`.
pub mod Waiting
pub mod Refused
pub mod Taking
pub mod Sleeping
use lksmith.Base.{
  ℕ, Bool, true, false, List, [], ◌∷◌, ◌++◌, Option, none, some, ◌==◌, if◌then◌else◌, Outcome, done,
  ◌>>=◌,
}
use lksmith.Code.{Code, ok, err, enoent, einval, failed}
use lksmith.Tree.{TreeLib}
use lksmith.Ignore.{TextLib}
use lksmith.Report.{Message, real_failed}
use lksmith.World.{World, TlsAnswers, log_report, init_tls}
use lksmith.Api.{lksmith_optional_init, lksmith_destroy}
use lksmith.Api.Locking.{LockAnswers, lksmith_prelock, lksmith_postlock}
use lksmith.Api.Unlocking.{lksmith_preunlock, lksmith_postunlock}

-- The real functions, r_pthread_mutex_init and so on.
pub data Real : Type 0 where
  mutex_init mutex_destroy mutex_trylock mutex_lock mutex_timedlock mutex_unlock : Real
  spin_init spin_destroy spin_lock spin_trylock spin_unlock : Real
  cond_init cond_wait cond_timedwait cond_destroy : Real

-- The loop over g_compatible_with_errcheck, whose entries are constants of pthread.h.
unfoldable pub is_compatible_with_errcheck : List ℕ → ℕ → Bool
is_compatible_with_errcheck [] ty = false
is_compatible_with_errcheck (c ∷ types) ty =
    let rest = is_compatible_with_errcheck types ty in if ty == c then true else rest

-- What pthread_mutex_init is answered: by init_tls, pthread_mutexattr_init, pthread_mutexattr_gettype
-- with the type, pthread_mutexattr_settype, the real function, calloc, and the real destroy function.
pub record MutexAnswers : Type 0 where
  pub tls : TlsAnswers
  pub attr_init : Code
  pub gettype : Code
  pub type : ℕ
  pub settype : Code
  pub real : Code
  pub memory : Option ℕ
  pub destroy : Code

abbrev pub is_einval : Code → Bool
is_einval (err einval) = true
is_einval _ = false

abbrev pub is_enoent : Code → Bool
is_enoent (err enoent) = true
is_enoent _ = false

module _ (T : TreeLib) (C : TextLib) where
  -- What a wrapper leaves: its code, the state, and the real calls.
  abbrev pub Ran : Type 0
  Ran = Code × World T × List Real

  -- if (ret) lksmith_error(ret, ...). A pthreads function fails with an errno value.
  unfoldable pub log_failure : Code → Message → World T → World T
  log_failure (err e) message w = log_report T C e message w
  log_failure _ message w = w

  unfoldable pub pthread_mutex_init_errcheck : MutexAnswers → ℕ → World T → Ran
  unfolding log_failure
  pthread_mutex_init_errcheck a ptr w =
      if failed a.attr_init
      then (a.attr_init, log_failure a.attr_init (real_failed ptr) w, [])
      else (if failed a.settype
          then (a.settype, log_failure a.settype (real_failed ptr) w, [])
          else (a.real, log_failure a.real (real_failed ptr) w, mutex_init ∷ []))

  -- `attr` tells whether there are attributes; the second result is `*recursive`.
  unfoldable pub pthread_mutex_real_init : List ℕ → MutexAnswers → Bool → ℕ → World T → Ran × Bool
  unfolding pthread_mutex_init_errcheck is_compatible_with_errcheck
  pthread_mutex_real_init types a false ptr w = (pthread_mutex_init_errcheck a ptr w, false)
  pthread_mutex_real_init types a true ptr w =
      let ty = if failed a.gettype then 0 else a.type in
      let compatible = is_compatible_with_errcheck types ty in
      if is_einval a.gettype
      then ((a.gettype, log_failure a.gettype (real_failed ptr) w, []), false)
      else (if compatible
          then (if failed a.settype
              then ((a.settype, log_failure a.settype (real_failed ptr) w, []), false)
              else ((a.real, log_failure a.real (real_failed ptr) w, mutex_init ∷ []), false))
          else ((a.real, log_failure a.real (real_failed ptr) w, mutex_init ∷ []), true))

  unfoldable pub pthread_mutex_destroy : TlsAnswers → Code → ℕ → ℕ → World T → Outcome Ran
  unfolding log_failure
  pthread_mutex_destroy a real t ptr w = lksmith_destroy T C a t ptr w >>= λ r.
      if failed r.0
      then (if is_enoent r.0
          then done (real, log_failure real (real_failed ptr) r.1, mutex_destroy ∷ [])
          else done (r.0, r.1, []))
      else done (real, log_failure real (real_failed ptr) r.1, mutex_destroy ∷ [])

  -- What follows the real initialization.
  unfoldable pub mutex_real_inited : MutexAnswers → ℕ → ℕ → Ran × Bool → Outcome Ran
  unfolding pthread_mutex_destroy
  mutex_real_inited a t ptr ((ret, w, calls), recursive) =
      if failed ret
      then done (ret, log_failure ret (real_failed ptr) w, calls)
      else (lksmith_optional_init T C a.tls a.memory t ptr recursive true w >>= λ r.
          let clean = pthread_mutex_destroy a.tls a.destroy t ptr r.1 in
          if failed r.0
          then (clean >>= λ d. done (r.0, d.1, calls ++ d.2))
          else done (ok, r.1, calls))

  unfoldable pub pthread_mutex_init : List ℕ → MutexAnswers → Bool → ℕ → ℕ → World T → Outcome Ran
  unfolding mutex_real_inited pthread_mutex_real_init
  pthread_mutex_init types a attr t ptr w = init_tls T C a.tls t w >>= λ r.
      if failed r.0
      then done (r.0, r.1, [])
      else mutex_real_inited a t ptr (pthread_mutex_real_init types a attr ptr r.1)

  -- What a wrapper of a lock function is answered: by lksmith_prelock and lksmith_postlock, and the
  -- real code.
  pub record TakeAnswers : Type 0 where
    pub pre : LockAnswers
    pub post : TlsAnswers
    pub held_memory : Bool
    pub real : Code
    pub meanwhile : World T → World T

  -- The body that the wrappers of the lock functions have in common.
  unfoldable pub take_lock : Real → TakeAnswers → ℕ → ℕ → Bool → World T → Outcome Ran
  take_lock fn a t ptr sleeper w = lksmith_prelock T C a.pre t ptr sleeper w >>= λ r.
      if failed r.0
      then done (r.0, r.1, [])
      else (lksmith_postlock T C a.post a.held_memory t ptr a.real (a.meanwhile r.1) >>= λ s.
          done (a.real, s.1, fn ∷ []))

  unfoldable pub pthread_mutex_trylock : TakeAnswers → ℕ → ℕ → World T → Outcome Ran
  unfolding take_lock
  pthread_mutex_trylock a t ptr = take_lock mutex_trylock a t ptr true

  unfoldable pub pthread_mutex_lock : TakeAnswers → ℕ → ℕ → World T → Outcome Ran
  unfolding take_lock
  pthread_mutex_lock a t ptr = take_lock mutex_lock a t ptr true

  unfoldable pub pthread_mutex_timedlock : TakeAnswers → ℕ → ℕ → World T → Outcome Ran
  unfolding take_lock
  pthread_mutex_timedlock a t ptr = take_lock mutex_timedlock a t ptr true

  unfoldable pub pthread_spin_lock : TakeAnswers → ℕ → ℕ → World T → Outcome Ran
  unfolding take_lock
  pthread_spin_lock a t ptr = take_lock spin_lock a t ptr false

  unfoldable pub pthread_spin_trylock : TakeAnswers → ℕ → ℕ → World T → Outcome Ran
  unfolding take_lock
  pthread_spin_trylock a t ptr = take_lock spin_trylock a t ptr false

  pub record GiveAnswers : Type 0 where
    pub pre : TlsAnswers
    pub post : TlsAnswers
    pub real : Code
    pub meanwhile : World T → World T

  -- The body that the wrappers of the unlock functions have in common.
  unfoldable pub give_lock : Real → GiveAnswers → ℕ → ℕ → World T → Outcome Ran
  give_lock fn a t ptr w = lksmith_preunlock T C a.pre t ptr w >>= λ r.
      let w' = a.meanwhile r.1 in
      if failed r.0
      then done (r.0, r.1, [])
      else (if failed a.real
          then done (a.real, w', fn ∷ [])
          else (lksmith_postunlock T C a.post t ptr w' >>= λ s. done (ok, s.1, fn ∷ [])))

  unfoldable pub pthread_mutex_unlock : GiveAnswers → ℕ → ℕ → World T → Outcome Ran
  unfolding give_lock
  pthread_mutex_unlock a t ptr = give_lock mutex_unlock a t ptr

  unfoldable pub pthread_spin_unlock : GiveAnswers → ℕ → ℕ → World T → Outcome Ran
  unfolding give_lock
  pthread_spin_unlock a t ptr = give_lock spin_unlock a t ptr

  unfoldable pub pthread_spin_init : TlsAnswers → Option ℕ → Code → ℕ → ℕ → World T → Outcome Ran
  unfolding log_failure
  pthread_spin_init a memory real t ptr w =
      lksmith_optional_init T C a memory t ptr false false w >>= λ r.
      let clean = lksmith_destroy T C a t ptr (log_failure real (real_failed ptr) r.1) in
      if failed r.0
      then done (r.0, r.1, [])
      else (if failed real
          then (clean >>= λ d. done (real, d.1, spin_init ∷ []))
          else done (ok, r.1, spin_init ∷ []))

  unfoldable pub pthread_spin_destroy : TlsAnswers → Code → ℕ → ℕ → World T → Outcome Ran
  pthread_spin_destroy a real t ptr w = lksmith_destroy T C a t ptr w >>= λ r.
      if failed r.0 then done (r.0, r.1, []) else done (real, r.1, spin_destroy ∷ [])
