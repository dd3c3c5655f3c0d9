-- ===== src/Handler/Waiting.antt =====
-- The wrappers of the functions on condition variables (handler.c).
use lksmith.Base.{
  ℕ, [], ◌∷◌, ◌++◌, Option, none, some, if◌then◌else◌, Outcome, done, fault, null_deref, ◌>>=◌,
}
use lksmith.Code.{Code, err, minus_one, eperm, failed}
use lksmith.Tree.{TreeLib}
use lksmith.Ignore.{TextLib}
use lksmith.Report.{real_failed, cond_not_locked}
use lksmith.World.{World, TlsAnswers, log_report}
use lksmith.Api.{lksmith_check_locked}
use lksmith.Cond.{lksmith_cond_prewait, lksmith_cond_postwait}
use lksmith.Api.Predestroy.{lksmith_cond_predestroy}
use lksmith.Handler.{Real, cond_init, cond_wait, cond_timedwait, cond_destroy, Ran, log_failure}

module _ (T : TreeLib) (C : TextLib) where
  -- `memory` is the answer of calloc for a condition variable that is not known.
  pub record WaitAnswers : Type 0 where
    pub tls : TlsAnswers
    pub memory : Option ℕ
    pub real : Code
    pub meanwhile : World T → World T

  -- r_pthread_cond_init is null before the library is initialized, and nothing here initializes it.
  unfoldable pub pthread_cond_init : Code → ℕ → World T → Outcome (Ran T C)
  pthread_cond_init real cond w =
      if w.initialized
      then done (real, log_failure T C real (real_failed cond) w, cond_init ∷ [])
      else fault null_deref

  -- From lksmith_cond_prewait on. lksmith_cond_postwait gets `cnd`, which starts as null.
  unfoldable pub waited : Real → WaitAnswers → ℕ → ℕ → World T → Outcome (Ran T C)
  waited fn a cond mutex w = lksmith_cond_prewait T a.memory cond mutex w.conds >>= λ p.
      let w' = a.meanwhile (record w { conds = p.conds; log = w.log ++ p.log }) in
      if failed p.code
      then done (p.code, record w { conds = p.conds; log = w.log ++ p.log }, [])
      else (elim p.out [
        | none ↦ fault null_deref
        | some cnd ↦ lksmith_cond_postwait T cnd w'.conds >>= λ s.
            done (a.real, record w' { conds = s }, fn ∷ [])
      ])

  -- The body that both wrappers have in common.
  unfoldable pub wait_on_cond : Real → WaitAnswers → ℕ → ℕ → ℕ → World T → Outcome (Ran T C)
  unfolding waited
  wait_on_cond fn a t cond mutex w = lksmith_check_locked T C a.tls t mutex w >>= λ r. elim r.0 [
    | err e ↦ done (err e, r.1, [])
    | minus_one ↦ done (err eperm, log_report T C eperm (cond_not_locked cond mutex) r.1, [])
    | _ ↦ waited fn a cond mutex r.1
  ]

  unfoldable pub pthread_cond_timedwait : WaitAnswers → ℕ → ℕ → ℕ → World T → Outcome (Ran T C)
  unfolding wait_on_cond
  pthread_cond_timedwait a t cond mutex = wait_on_cond cond_timedwait a t cond mutex

  unfoldable pub pthread_cond_wait : WaitAnswers → ℕ → ℕ → ℕ → World T → Outcome (Ran T C)
  unfolding wait_on_cond
  pthread_cond_wait a t cond mutex = wait_on_cond cond_wait a t cond mutex

  unfoldable pub pthread_cond_destroy : TlsAnswers → Code → ℕ → ℕ → World T → Outcome (Ran T C)
  unfolding lksmith_cond_predestroy
  pthread_cond_destroy a real t cond w = lksmith_cond_predestroy T C a t cond w >>= λ r.
      if failed r.0
      then done (r.0, r.1, [])
      else done (real, log_failure T C real (real_failed cond) r.1, cond_destroy ∷ [])
