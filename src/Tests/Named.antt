-- ===== src/Tests/Named.antt =====
-- The tests of thread_unit.c and ignore_unit.c on the association list.
use lksmith.Base.{take, ◌≢◌, ℕ, ◌≡◌, refl, [], ◌∷◌, some, done}
use lksmith.Code.{ok}
use lksmith.Tree.Assoc.{assoc_lib}
use lksmith.Support.{
  num_recorded_errors, get_current_timespec, record_error, find_recorded_error,
  clear_recorded_errors,
}
use lksmith.World.{get_or_create_tls, init_tls}
use lksmith.Programs.{
  Answers, passed, mismatch, run_all, run_threads, sem_init, sem_post, sem_wait, clear_errors,
  expect_zero, expect_errno, expect_found, expect_answer,
}
use lksmith.Held.{tls_append_held, tls_contains_lid, tls_remove_held}
use lksmith.Sorted.{lk_add_sorted, find_place, insert_at}
use lksmith.Holders.{lk_holder_add, lk_holder_remove, same_text}
use lksmith.Graph.{lksmith_insert, lksmith_find, lksmith_forget, lk_add_before}
use lksmith.Search.{lksmith_search, search_all}
use lksmith.Depends.{depend, lksmith_prelock_process_depends}
use lksmith.Ignore.{lksmith_init_ignored, should_skip_dependency_processing}
use lksmith.Api.{with_tls, lksmith_optional_init, lksmith_destroy}
use lksmith.Api.Locking.{lksmith_prelock, lksmith_postlock}
use lksmith.Api.Unlocking.{lksmith_preunlock, lksmith_postunlock}
use lksmith.Handler.{
  pthread_mutex_init, pthread_mutex_destroy, pthread_mutex_lock, pthread_mutex_trylock,
  pthread_mutex_unlock, pthread_mutex_timedlock, pthread_spin_init, pthread_spin_destroy,
  pthread_spin_lock, pthread_spin_unlock,
}
use lksmith.Tests.Ignored.{plain_lib}
use lksmith.Tests.Threads.{answers, main_tls, started}
use lksmith.Tests.Bench.{recording, succeeding, verdict, each_new}
use lksmith.Lock.{Text}
use lksmith.World.{TlsAnswers, World}
use lksmith.Api.{
  lksmith_set_thread_name, lksmith_get_thread_name, lksmith_get_ignored_frame_patterns,
}
use lksmith.Api.Naming.{set-get_thread_name}
use lksmith.Programs.Names.{expect_name, test_thread_name_set_and_get_impl}
use lksmith.Programs.Skipping.{
  ignore_pattern, ignored_variable, check_ignored_frame_patterns, expect_no_errors, ignoring,
  verify_ignored_frame_patterns_work,
}

thread_name_set_and_get :
    verdict (test_thread_name_set_and_get_impl assoc_lib plain_lib recording (λ k. answers) 1)
    ≡ done passed
unfolding run_all sem_init sem_post sem_wait run_threads clear_errors expect_zero expect_errno
    expect_found find_recorded_error clear_recorded_errors record_error pthread_mutex_lock
    pthread_mutex_trylock pthread_mutex_unlock pthread_mutex_init pthread_mutex_destroy
    lksmith_prelock lksmith_postlock lksmith_preunlock lksmith_postunlock lksmith_optional_init
    lksmith_destroy lksmith_init_ignored get_or_create_tls init_tls lksmith_insert lksmith_find
    lksmith_forget lksmith_prelock_process_depends lksmith_search search_all lk_add_before depend
    with_tls tls_append_held tls_contains_lid tls_remove_held should_skip_dependency_processing
    lk_add_sorted find_place insert_at lk_holder_remove lk_holder_add same_text
    pthread_mutex_timedlock get_current_timespec pthread_spin_lock pthread_spin_unlock
    pthread_spin_init pthread_spin_destroy expect_answer expect_name lksmith_set_thread_name
    lksmith_get_thread_name
thread_name_set_and_get = refl

-- A thread with storage sets a name of 16 characters.
abbrev long_name : Text
long_name = 1 ∷ 2 ∷ 3 ∷ 4 ∷ 5 ∷ 6 ∷ 7 ∷ 8 ∷ 9 ∷ 10 ∷ 11 ∷ 12 ∷ 13 ∷ 14 ∷ 15 ∷ 16 ∷ []

started_storage :
    get_or_create_tls assoc_lib plain_lib answers 1 started ≡ done (some main_tls, started)
unfolding get_or_create_tls
started_storage = refl

set-get_thread_name_example :
    (w1 : World assoc_lib) × (lksmith_set_thread_name assoc_lib plain_lib answers 1 long_name
        started
      ≡ done (ok, w1))
    × (lksmith_get_thread_name assoc_lib plain_lib answers 1 w1
        ≡ done (some (take 15 long_name), w1))
    × (w1.tls 1 ≡ some (record main_tls { name = take 15 long_name }))
    × ((j : ℕ) → 1 ≢ j → w1.tls j ≡ started.tls j)
    × (w1.graph ≡ started.graph)
    × (w1.log ≡ started.log)
set-get_thread_name_example =
    set-get_thread_name assoc_lib plain_lib answers answers 1 long_name main_tls started started
      started_storage

-- The library is started with the variable, and the frames of ignore1 match its first pattern.
abbrev with_variable : TlsAnswers
with_variable =
    let i = answers.init in
    record answers { init = record i { patterns_env = some ignored_variable } }

abbrev within_ignore1 : ℕ → Answers assoc_lib plain_lib
within_ignore1 k =
    let a = succeeding 320 in
    let t = a.take in
    let p = t.pre in
    record a { take = record t { pre = record p { frames = some (ignore_pattern 49 ∷ []) } } }

ignored_frame_patterns_work :
    verdict (
      check_ignored_frame_patterns assoc_lib plain_lib recording with_variable 1
      ∷ verify_ignored_frame_patterns_work assoc_lib plain_lib recording each_new within_ignore1 1
          10 20)
    ≡ done passed
unfolding run_all sem_init sem_post sem_wait run_threads clear_errors expect_zero expect_errno
    expect_found find_recorded_error clear_recorded_errors record_error pthread_mutex_lock
    pthread_mutex_trylock pthread_mutex_unlock pthread_mutex_init pthread_mutex_destroy
    lksmith_prelock lksmith_postlock lksmith_preunlock lksmith_postunlock lksmith_optional_init
    lksmith_destroy lksmith_init_ignored get_or_create_tls init_tls lksmith_insert lksmith_find
    lksmith_forget lksmith_prelock_process_depends lksmith_search search_all lk_add_before depend
    with_tls tls_append_held tls_contains_lid tls_remove_held should_skip_dependency_processing
    lk_add_sorted find_place insert_at lk_holder_remove lk_holder_add same_text
    pthread_mutex_timedlock get_current_timespec pthread_spin_lock pthread_spin_unlock
    pthread_spin_init pthread_spin_destroy expect_answer ignoring check_ignored_frame_patterns
    expect_no_errors num_recorded_errors lksmith_get_ignored_frame_patterns
ignored_frame_patterns_work = refl

-- Called from a function that is not named, the same calls are an inversion.
unnamed_function_recorded :
    verdict (
      check_ignored_frame_patterns assoc_lib plain_lib recording with_variable 1
      ∷ verify_ignored_frame_patterns_work assoc_lib plain_lib recording each_new each_new 1 10 20)
    ≡ done mismatch
unfolding run_all sem_init sem_post sem_wait run_threads clear_errors expect_zero expect_errno
    expect_found find_recorded_error clear_recorded_errors record_error pthread_mutex_lock
    pthread_mutex_trylock pthread_mutex_unlock pthread_mutex_init pthread_mutex_destroy
    lksmith_prelock lksmith_postlock lksmith_preunlock lksmith_postunlock lksmith_optional_init
    lksmith_destroy lksmith_init_ignored get_or_create_tls init_tls lksmith_insert lksmith_find
    lksmith_forget lksmith_prelock_process_depends lksmith_search search_all lk_add_before depend
    with_tls tls_append_held tls_contains_lid tls_remove_held should_skip_dependency_processing
    lk_add_sorted find_place insert_at lk_holder_remove lk_holder_add same_text
    pthread_mutex_timedlock get_current_timespec pthread_spin_lock pthread_spin_unlock
    pthread_spin_init pthread_spin_destroy expect_answer ignoring check_ignored_frame_patterns
    expect_no_errors num_recorded_errors lksmith_get_ignored_frame_patterns
unnamed_function_recorded = refl
