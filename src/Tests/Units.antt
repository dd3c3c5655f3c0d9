-- ===== src/Tests/Units.antt =====
-- The tests of simple_unit.c on the association list.
use lksmith.Base.{ℕ, ◌≡◌, refl, [], ◌∷◌, none, some, arith, done}
use lksmith.Code.{ok, einval}
use lksmith.Tree.Assoc.{assoc_lib}
use lksmith.Support.{get_current_timespec, record_error, find_recorded_error, clear_recorded_errors}
use lksmith.World.{Tls, get_or_create_tls, init_tls}
use lksmith.Programs.{
  Answers, Bench, passed, run_all, run_threads, sem_init, sem_post, sem_wait, clear_errors,
  expect_zero, expect_errno, expect_found, expect_answer,
}
use lksmith.Programs.Simple.{test_mutex_lock_simple, test_recursive_mutex}
use lksmith.Lock.{store}
use lksmith.Tests.Graphs.{two_locks-IsWf}
use lksmith.Programs.Whole.{Passes, Succeeds, test_mutex_lock_simple-passed}
use lksmith.Programs.Passes.{Unknown}
use lksmith.Held.{tls_append_held, tls_contains_lid, tls_remove_held}
use lksmith.Sorted.{lk_add_sorted, find_place, insert_at}
use lksmith.Holders.{lk_holder_add, lk_holder_remove, same_text}
use lksmith.Graph.{lksmith_insert, lksmith_find, lksmith_forget, lk_add_before}
use lksmith.Search.{lksmith_search, search_all}
use lksmith.Depends.{depend, lksmith_prelock_process_depends}
use lksmith.Ignore.{lksmith_init_ignored, should_skip_dependency_processing}
use lksmith.Api.{with_tls, lksmith_optional_init, lksmith_destroy}
use lksmith.Api.Locking.{lksmith_prelock, lksmith_postlock}
use lksmith.Api.Unlocking.{lksmith_preunlock, lksmith_postunlock}
use lksmith.Handler.{
  pthread_mutex_init, pthread_mutex_destroy, pthread_mutex_lock, pthread_mutex_trylock,
  pthread_mutex_unlock, pthread_mutex_timedlock, pthread_spin_init, pthread_spin_destroy,
  pthread_spin_lock, pthread_spin_unlock,
}
use lksmith.Tests.Ignored.{plain_lib}
use lksmith.Tests.Threads.{main_tls, started}
use lksmith.Tests.Bench.{recording, succeeding, bench, verdict, each_new}

lock_simple :
    verdict (
      test_mutex_lock_simple assoc_lib plain_lib recording each_new 1 10
        (some (5, 7))
        einval
        (λ ts. each_new 7))
    ≡ done passed
unfolding run_all sem_init sem_post sem_wait run_threads clear_errors expect_zero expect_errno
    expect_found find_recorded_error clear_recorded_errors record_error pthread_mutex_lock
    pthread_mutex_trylock pthread_mutex_unlock pthread_mutex_init pthread_mutex_destroy
    lksmith_prelock lksmith_postlock lksmith_preunlock lksmith_postunlock lksmith_optional_init
    lksmith_destroy lksmith_init_ignored get_or_create_tls init_tls lksmith_insert lksmith_find
    lksmith_forget lksmith_prelock_process_depends lksmith_search search_all lk_add_before depend
    with_tls tls_append_held tls_contains_lid tls_remove_held should_skip_dependency_processing
    lk_add_sorted find_place insert_at lk_holder_remove lk_holder_add same_text
    pthread_mutex_timedlock get_current_timespec pthread_spin_lock pthread_spin_unlock
    pthread_spin_init pthread_spin_destroy expect_answer
lock_simple = refl

recursive_mutex :
    let typed : Answers assoc_lib plain_lib =
      (let a = succeeding 300 in let m = a.mutex in record a { mutex = record m { type = 1 } }) in
    verdict (test_recursive_mutex assoc_lib plain_lib recording (λ k. typed) 1 10 (λ k. ok))
    ≡ done passed
unfolding run_all sem_init sem_post sem_wait run_threads clear_errors expect_zero expect_errno
    expect_found find_recorded_error clear_recorded_errors record_error pthread_mutex_lock
    pthread_mutex_trylock pthread_mutex_unlock pthread_mutex_init pthread_mutex_destroy
    lksmith_prelock lksmith_postlock lksmith_preunlock lksmith_postunlock lksmith_optional_init
    lksmith_destroy lksmith_init_ignored get_or_create_tls init_tls lksmith_insert lksmith_find
    lksmith_forget lksmith_prelock_process_depends lksmith_search search_all lk_add_before depend
    with_tls tls_append_held tls_contains_lid tls_remove_held should_skip_dependency_processing
    lk_add_sorted find_place insert_at lk_holder_remove lk_holder_add same_text
    pthread_mutex_timedlock get_current_timespec pthread_spin_lock pthread_spin_unlock
    pthread_spin_init pthread_spin_destroy expect_answer
recursive_mutex = refl

succeeding-Succeeds : (lk : ℕ) → Succeeds assoc_lib plain_lib lk (succeeding lk)
succeeding-Succeeds lk = record {
  attr_init = refl;
  settype = refl;
  mutex_real = refl;
  memory = refl;
  frames = (102 ∷ []) ∷ [];
  traced = refl;
  held_memory = refl;
  take_real = refl;
  take_alone = λ w. refl;
  give_real = refl;
  give_alone = λ w. refl;
  real = refl;
}

-- The thread "m" holds nothing, and two mutexes are known.
abbrev idle_tls : Tls
idle_tls = record main_tls { held = [] }

abbrev idle : Bench assoc_lib plain_lib recording
idle = record bench { world = record started { tls = store 1 idle_tls (λ t. none) } }

test_mutex_lock_simple-passed_example :
    Passes assoc_lib plain_lib recording []
      (Unknown assoc_lib plain_lib 1 300 30 idle_tls [] 0)
      (test_mutex_lock_simple assoc_lib plain_lib recording
        (λ k. succeeding 300)
        1
        30
        (some (5, 7))
        einval
        (λ ts. succeeding 300))
      idle
test_mutex_lock_simple-passed_example =
    test_mutex_lock_simple-passed assoc_lib plain_lib recording [] 1 300 30 0 idle_tls
      (λ k. succeeding 300) (5, 7) einval (λ ts. succeeding 300) idle refl refl refl refl
      (λ k. succeeding-Succeeds 300) (succeeding-Succeeds 300)
      (record {
        storage = refl;
        wf = two_locks-IsWf;
        unknown = refl;
        unused = refl;
        colors = omega arith;
        quiet = refl;
      })
