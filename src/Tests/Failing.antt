-- ===== src/Tests/Failing.antt =====
-- The tests of error_unit.c on the association list, with real functions that answer as glibc does.
use lksmith.Base.{◌+◌, ◌≡◌, refl, [], ◌∷◌, done}
use lksmith.Code.{ok}
use lksmith.Tree.Assoc.{assoc_lib}
use lksmith.Support.{get_current_timespec, record_error, find_recorded_error, clear_recorded_errors}
use lksmith.World.{get_or_create_tls, init_tls}
use lksmith.Programs.{
  passed, run_all, run_threads, sem_init, sem_post, sem_wait, clear_errors, expect_zero,
  expect_errno, expect_found, expect_answer,
}
use lksmith.Programs.Errors.{
  test_ab_inversion, test_destroy_while_same_thread_has_locked,
  test_destroy_while_other_thread_has_locked, test_bad_unlock, test_big_inversion,
  test_take_sleeping_lock_while_holding_spin, test_recursion_on_nonrecursive,
}
use lksmith.Held.{tls_append_held, tls_contains_lid, tls_remove_held}
use lksmith.Sorted.{lk_add_sorted, find_place, insert_at}
use lksmith.Holders.{lk_holder_add, lk_holder_remove, same_text}
use lksmith.Graph.{lksmith_insert, lksmith_find, lksmith_forget, lk_add_before}
use lksmith.Search.{lksmith_search, search_all}
use lksmith.Depends.{depend, lksmith_prelock_process_depends}
use lksmith.Ignore.{lksmith_init_ignored, should_skip_dependency_processing}
use lksmith.Api.{with_tls, lksmith_optional_init, lksmith_destroy}
use lksmith.Api.Locking.{lksmith_prelock, lksmith_postlock}
use lksmith.Api.Unlocking.{lksmith_preunlock, lksmith_postunlock}
use lksmith.Handler.{
  pthread_mutex_init, pthread_mutex_destroy, pthread_mutex_lock, pthread_mutex_trylock,
  pthread_mutex_unlock, pthread_mutex_timedlock, pthread_spin_init, pthread_spin_destroy,
  pthread_spin_lock, pthread_spin_unlock,
}
use lksmith.Tests.Ignored.{plain_lib}
use lksmith.Tests.Bench.{recording, succeeding, busy, verdict, answering, each_new}

-- Thread 2 tries the mutex 10 while thread 1 has it.
ab_inversion :
    verdict (
      test_ab_inversion assoc_lib plain_lib recording each_new
        (answering (succeeding 310 ∷ busy 311 ∷ succeeding 312 ∷ []))
        (0 ∷ 0 ∷ 0 ∷ 0 ∷ 1 ∷ 1 ∷ 1 ∷ 1 ∷ 0 ∷ 0 ∷ 1 ∷ [])
        10
        20)
    ≡ done passed
unfolding run_all sem_init sem_post sem_wait run_threads clear_errors expect_zero expect_errno
    expect_found find_recorded_error clear_recorded_errors record_error pthread_mutex_lock
    pthread_mutex_trylock pthread_mutex_unlock pthread_mutex_init pthread_mutex_destroy
    lksmith_prelock lksmith_postlock lksmith_preunlock lksmith_postunlock lksmith_optional_init
    lksmith_destroy lksmith_init_ignored get_or_create_tls init_tls lksmith_insert lksmith_find
    lksmith_forget lksmith_prelock_process_depends lksmith_search search_all lk_add_before depend
    with_tls tls_append_held tls_contains_lid tls_remove_held should_skip_dependency_processing
    lk_add_sorted find_place insert_at lk_holder_remove lk_holder_add same_text
    pthread_mutex_timedlock get_current_timespec pthread_spin_lock pthread_spin_unlock
    pthread_spin_init pthread_spin_destroy expect_answer
ab_inversion = refl

destroy_while_same_thread_has_locked :
    verdict (test_destroy_while_same_thread_has_locked assoc_lib plain_lib recording each_new 1 10)
    ≡ done passed
unfolding run_all sem_init sem_post sem_wait run_threads clear_errors expect_zero expect_errno
    expect_found find_recorded_error clear_recorded_errors record_error pthread_mutex_lock
    pthread_mutex_trylock pthread_mutex_unlock pthread_mutex_init pthread_mutex_destroy
    lksmith_prelock lksmith_postlock lksmith_preunlock lksmith_postunlock lksmith_optional_init
    lksmith_destroy lksmith_init_ignored get_or_create_tls init_tls lksmith_insert lksmith_find
    lksmith_forget lksmith_prelock_process_depends lksmith_search search_all lk_add_before depend
    with_tls tls_append_held tls_contains_lid tls_remove_held should_skip_dependency_processing
    lk_add_sorted find_place insert_at lk_holder_remove lk_holder_add same_text
    pthread_mutex_timedlock get_current_timespec pthread_spin_lock pthread_spin_unlock
    pthread_spin_init pthread_spin_destroy expect_answer
destroy_while_same_thread_has_locked = refl

destroy_while_other_thread_has_locked :
    verdict (
      test_destroy_while_other_thread_has_locked assoc_lib plain_lib recording each_new each_new
        (0 ∷ 1 ∷ 1 ∷ 1 ∷ 0 ∷ 0 ∷ 0 ∷ 0 ∷ 1 ∷ 1 ∷ [])
        1
        2
        10)
    ≡ done passed
unfolding run_all sem_init sem_post sem_wait run_threads clear_errors expect_zero expect_errno
    expect_found find_recorded_error clear_recorded_errors record_error pthread_mutex_lock
    pthread_mutex_trylock pthread_mutex_unlock pthread_mutex_init pthread_mutex_destroy
    lksmith_prelock lksmith_postlock lksmith_preunlock lksmith_postunlock lksmith_optional_init
    lksmith_destroy lksmith_init_ignored get_or_create_tls init_tls lksmith_insert lksmith_find
    lksmith_forget lksmith_prelock_process_depends lksmith_search search_all lk_add_before depend
    with_tls tls_append_held tls_contains_lid tls_remove_held should_skip_dependency_processing
    lk_add_sorted find_place insert_at lk_holder_remove lk_holder_add same_text
    pthread_mutex_timedlock get_current_timespec pthread_spin_lock pthread_spin_unlock
    pthread_spin_init pthread_spin_destroy expect_answer
destroy_while_other_thread_has_locked = refl

bad_unlock :
    verdict (
      test_bad_unlock assoc_lib plain_lib recording each_new each_new
        (0 ∷ 1 ∷ 1 ∷ 1 ∷ 0 ∷ 0 ∷ 0 ∷ 0 ∷ 1 ∷ 1 ∷ [])
        1
        2
        10)
    ≡ done passed
unfolding run_all sem_init sem_post sem_wait run_threads clear_errors expect_zero expect_errno
    expect_found find_recorded_error clear_recorded_errors record_error pthread_mutex_lock
    pthread_mutex_trylock pthread_mutex_unlock pthread_mutex_init pthread_mutex_destroy
    lksmith_prelock lksmith_postlock lksmith_preunlock lksmith_postunlock lksmith_optional_init
    lksmith_destroy lksmith_init_ignored get_or_create_tls init_tls lksmith_insert lksmith_find
    lksmith_forget lksmith_prelock_process_depends lksmith_search search_all lk_add_before depend
    with_tls tls_append_held tls_contains_lid tls_remove_held should_skip_dependency_processing
    lk_add_sorted find_place insert_at lk_holder_remove lk_holder_add same_text
    pthread_mutex_timedlock get_current_timespec pthread_spin_lock pthread_spin_unlock
    pthread_spin_init pthread_spin_destroy expect_answer
bad_unlock = refl

-- Three threads, each with the lock of its number plus 10.
big_inversion :
    verdict (
      test_big_inversion assoc_lib plain_lib recording each_new
        (λ i. answering (succeeding 400 ∷ busy 400 ∷ succeeding 400 ∷ []))
        (0 ∷ 0 ∷ 1 ∷ 1 ∷ 2 ∷ 2 ∷ 3 ∷ 3 ∷ 3 ∷ 3 ∷ 3 ∷ 1 ∷ 1 ∷ 1 ∷ 2 ∷ 2 ∷ 2 ∷ 0 ∷ 0 ∷ 0 ∷ 0 ∷ 0 ∷ 2
          ∷ 2 ∷ 2 ∷ 1 ∷ 1 ∷ 1 ∷ [])
        7
        3
        (λ i. 10 + i))
    ≡ done passed
unfolding run_all sem_init sem_post sem_wait run_threads clear_errors expect_zero expect_errno
    expect_found find_recorded_error clear_recorded_errors record_error pthread_mutex_lock
    pthread_mutex_trylock pthread_mutex_unlock pthread_mutex_init pthread_mutex_destroy
    lksmith_prelock lksmith_postlock lksmith_preunlock lksmith_postunlock lksmith_optional_init
    lksmith_destroy lksmith_init_ignored get_or_create_tls init_tls lksmith_insert lksmith_find
    lksmith_forget lksmith_prelock_process_depends lksmith_search search_all lk_add_before depend
    with_tls tls_append_held tls_contains_lid tls_remove_held should_skip_dependency_processing
    lk_add_sorted find_place insert_at lk_holder_remove lk_holder_add same_text
    pthread_mutex_timedlock get_current_timespec pthread_spin_lock pthread_spin_unlock
    pthread_spin_init pthread_spin_destroy expect_answer
big_inversion = refl

sleeping_under_spin_lock :
    verdict
      (test_take_sleeping_lock_while_holding_spin assoc_lib plain_lib recording each_new 1 10 20)
    ≡ done passed
unfolding run_all sem_init sem_post sem_wait run_threads clear_errors expect_zero expect_errno
    expect_found find_recorded_error clear_recorded_errors record_error pthread_mutex_lock
    pthread_mutex_trylock pthread_mutex_unlock pthread_mutex_init pthread_mutex_destroy
    lksmith_prelock lksmith_postlock lksmith_preunlock lksmith_postunlock lksmith_optional_init
    lksmith_destroy lksmith_init_ignored get_or_create_tls init_tls lksmith_insert lksmith_find
    lksmith_forget lksmith_prelock_process_depends lksmith_search search_all lk_add_before depend
    with_tls tls_append_held tls_contains_lid tls_remove_held should_skip_dependency_processing
    lk_add_sorted find_place insert_at lk_holder_remove lk_holder_add same_text
    pthread_mutex_timedlock get_current_timespec pthread_spin_lock pthread_spin_unlock
    pthread_spin_init pthread_spin_destroy expect_answer
sleeping_under_spin_lock = refl

recursion :
    verdict (
      test_recursion_on_nonrecursive assoc_lib plain_lib recording
        (answering (succeeding 300 ∷ succeeding 301 ∷ busy 302 ∷ []))
        (λ k. ok)
        1
        10)
    ≡ done passed
unfolding run_all sem_init sem_post sem_wait run_threads clear_errors expect_zero expect_errno
    expect_found find_recorded_error clear_recorded_errors record_error pthread_mutex_lock
    pthread_mutex_trylock pthread_mutex_unlock pthread_mutex_init pthread_mutex_destroy
    lksmith_prelock lksmith_postlock lksmith_preunlock lksmith_postunlock lksmith_optional_init
    lksmith_destroy lksmith_init_ignored get_or_create_tls init_tls lksmith_insert lksmith_find
    lksmith_forget lksmith_prelock_process_depends lksmith_search search_all lk_add_before depend
    with_tls tls_append_held tls_contains_lid tls_remove_held should_skip_dependency_processing
    lk_add_sorted find_place insert_at lk_holder_remove lk_holder_add same_text
    pthread_mutex_timedlock get_current_timespec pthread_spin_lock pthread_spin_unlock
    pthread_spin_init pthread_spin_destroy expect_answer
recursion = refl
