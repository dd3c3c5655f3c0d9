-- ===== src/Tests/Wrapped.antt =====
-- The wrappers of handler.c, called by the thread of the tests of the API functions.
use lksmith.Base.{ℕ, ◌≡◌, refl, ◌⊎◌, inl, true, List, [], ◌∷◌, none, some, arith, done}
use lksmith.Code.{ok, err, enoent, eperm, ebusy}
use lksmith.Lock.{Lock, Holder}
use lksmith.Tree.Assoc.{assoc_lib}
use lksmith.Graph.{IsWf}
use lksmith.Held.{tls_contains_lid}
use lksmith.Report.{unlock_unknown, unlock_not_held, real_failed}
use lksmith.World.{World, Tls, log_report}
use lksmith.Api.Calls.{Known}
use lksmith.Handler.{
  TakeAnswers, GiveAnswers, mutex_lock, mutex_destroy, pthread_mutex_lock, pthread_mutex_unlock,
  pthread_mutex_destroy, log_failure,
}
use lksmith.Handler.Refused.{pthread_mutex_unlock_refused, pthread_mutex_destroy_lem}
use lksmith.Handler.Taking.{pthread_mutex_lock_lem}
use lksmith.Tests.Graphs.{two_locks-IsWf, lock_b}
use lksmith.Tests.Ignored.{plain_lib}
use lksmith.Tests.Threads.{answers, lock_answers, main_tls, started}

abbrev take_answers : TakeAnswers assoc_lib plain_lib
take_answers = record {
  pre = lock_answers;
  post = answers;
  held_memory = true;
  real = ok;
  meanwhile = λ w. w;
}

abbrev give_answers : GiveAnswers assoc_lib plain_lib
give_answers = record { pre = answers; post = answers; real = ok; meanwhile = λ w. w }

pthread_mutex_lock_lem_example :
    (w : World assoc_lib) × (tls : Tls) × (l : Lock) × (pthread_mutex_lock assoc_lib plain_lib
        take_answers 1 20 started
      ≡ done (ok, w, mutex_lock ∷ []))
    × (w.tls 1 ≡ some tls)
    × (tls_contains_lid tls.held 20 ≡ true)
    × Known assoc_lib 200 20 l w.graph
pthread_mutex_lock_lem_example =
    pthread_mutex_lock_lem assoc_lib plain_lib 1 200 20 take_answers main_tls ((102 ∷ []) ∷ [])
      lock_b started (refl, refl) refl refl refl (λ u l k. (refl, (l, k))) two_locks-IsWf
      (omega arith) (inl (refl, refl))

pthread_mutex_unlock_refused_example :
    (pthread_mutex_unlock assoc_lib plain_lib give_answers 1 20 started
        ≡ done (err enoent, log_report assoc_lib plain_lib enoent (unlock_unknown 20) started, []))
      × (assoc_lib.find 20 started.graph.tree ≡ none)
    ⊎ (pthread_mutex_unlock assoc_lib plain_lib give_answers 1 20 started
        ≡ done (err eperm, log_report assoc_lib plain_lib eperm (unlock_not_held 20) started, []))
      × ((lk : ℕ) × (assoc_lib.find 20 started.graph.tree ≡ some lk))
unfolding tls_contains_lid
pthread_mutex_unlock_refused_example =
    pthread_mutex_unlock_refused assoc_lib plain_lib 1 20 main_tls give_answers started (refl, refl)
      two_locks-IsWf refl

pthread_mutex_destroy_lem_example :
    (assoc_lib.find 20 started.graph.tree ≡ none
      → pthread_mutex_destroy assoc_lib plain_lib answers ok 1 20 started
        ≡ done
            (ok, log_failure assoc_lib plain_lib ok (real_failed 20) started, mutex_destroy ∷ []))
    × ((lk : ℕ) (l : Lock) (h : Holder) (hs : List Holder)
        → Known assoc_lib lk 20 l started.graph
        → l.holders ≡ h ∷ hs
        → (w' : World assoc_lib) × (pthread_mutex_destroy assoc_lib plain_lib answers ok 1 20
              started
            ≡ done (err ebusy, w', []))
          × (w'.graph ≡ started.graph))
    × ((lk : ℕ) (l : Lock)
        → Known assoc_lib lk 20 l started.graph
        → l.holders ≡ []
        → (w' : World assoc_lib) × (pthread_mutex_destroy assoc_lib plain_lib answers ok 1 20
              started
            ≡ done (ok, log_failure assoc_lib plain_lib ok (real_failed 20) w', mutex_destroy ∷ []))
          × IsWf assoc_lib w'.graph
          × (assoc_lib.find 20 w'.graph.tree ≡ none)
          × (w'.graph.heap lk ≡ none))
pthread_mutex_destroy_lem_example =
    pthread_mutex_destroy_lem assoc_lib plain_lib 1 20 main_tls answers ok started (refl, refl)
      two_locks-IsWf
