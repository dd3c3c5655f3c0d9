-- ===== src/Tests/Inverted.antt =====
-- Two threads that take the mutexes 10 and 20 in opposite orders, as in test_ab_inversion of
-- error_unit.c.
use lksmith.Base.{
  ℕ, ◌≡◌, refl, true, [], ◌∷◌, inl, inr, none, some, arith, In, Outcome, done, fault,
}
use lksmith.Code.{ok}
use lksmith.Tree.Assoc.{assoc_lib}
use lksmith.Depends.Round.{inversions}
use lksmith.Ignore.{lksmith_init_ignored, should_skip_dependency_processing}
use lksmith.World.{World, get_or_create_tls}
use lksmith.Graph.{lksmith_insert, lksmith_find, lk_add_before}
use lksmith.Held.{tls_append_held}
use lksmith.Depends.{depend, lksmith_prelock_process_depends}
use lksmith.Search.{lksmith_search, search_all}
use lksmith.Sorted.{lk_add_sorted, find_place, insert_at}
use lksmith.Api.{with_tls}
use lksmith.Api.Locking.{lksmith_prelock, lksmith_postlock}
use lksmith.System.{Call, prelock, postlock, perform, unstarted, Reach, start, after}
use lksmith.System.Links.{Ways, once, next}
use lksmith.System.Linking.{Checks, Took, Nested}
use lksmith.System.Detection.{cycle-reported, reported-cycle}
use lksmith.Tests.Ignored.{plain_lib}
use lksmith.Tests.Threads.{answers, lock_answers, main_tls}

-- The call that thread `t` makes before it takes `ptr`, and the one after it took it.
abbrev before : ℕ → ℕ → ℕ → Call
before memory t ptr = prelock (record lock_answers { lock_memory = some memory }) t ptr true

abbrev taken : ℕ → ℕ → Call
taken t ptr = postlock answers true t ptr ok

abbrev result : World assoc_lib → Outcome (World assoc_lib) → World assoc_lib
result w (done u) = u
result w (fault e) = w

abbrev next_state : Call → World assoc_lib → World assoc_lib
next_state c w = result w (perform assoc_lib plain_lib c w)

abbrev w0 : World assoc_lib
w0 = unstarted assoc_lib plain_lib

abbrev w1 : World assoc_lib
w1 = next_state (before 300 1 10) w0

abbrev w2 : World assoc_lib
w2 = next_state (taken 1 10) w1

abbrev w3 : World assoc_lib
w3 = next_state (before 301 1 20) w2

abbrev w4 : World assoc_lib
w4 = next_state (before 302 2 20) w3

abbrev w5 : World assoc_lib
w5 = next_state (taken 2 20) w4

abbrev w6 : World assoc_lib
w6 = next_state (before 303 2 10) w5

run1 : perform assoc_lib plain_lib (before 300 1 10) w0 ≡ done w1
unfolding lksmith_prelock lksmith_postlock lksmith_init_ignored get_or_create_tls lksmith_insert
    lksmith_find lksmith_prelock_process_depends lksmith_search search_all lk_add_before depend
    with_tls tls_append_held should_skip_dependency_processing lk_add_sorted find_place insert_at
run1 = refl

run2 : perform assoc_lib plain_lib (taken 1 10) w1 ≡ done w2
unfolding lksmith_prelock lksmith_postlock lksmith_init_ignored get_or_create_tls lksmith_insert
    lksmith_find lksmith_prelock_process_depends lksmith_search search_all lk_add_before depend
    with_tls tls_append_held should_skip_dependency_processing lk_add_sorted find_place insert_at
run2 = refl

run3 : perform assoc_lib plain_lib (before 301 1 20) w2 ≡ done w3
unfolding lksmith_prelock lksmith_postlock lksmith_init_ignored get_or_create_tls lksmith_insert
    lksmith_find lksmith_prelock_process_depends lksmith_search search_all lk_add_before depend
    with_tls tls_append_held should_skip_dependency_processing lk_add_sorted find_place insert_at
run3 = refl

run4 : perform assoc_lib plain_lib (before 302 2 20) w3 ≡ done w4
unfolding lksmith_prelock lksmith_postlock lksmith_init_ignored get_or_create_tls lksmith_insert
    lksmith_find lksmith_prelock_process_depends lksmith_search search_all lk_add_before depend
    with_tls tls_append_held should_skip_dependency_processing lk_add_sorted find_place insert_at
run4 = refl

run5 : perform assoc_lib plain_lib (taken 2 20) w4 ≡ done w5
unfolding lksmith_prelock lksmith_postlock lksmith_init_ignored get_or_create_tls lksmith_insert
    lksmith_find lksmith_prelock_process_depends lksmith_search search_all lk_add_before depend
    with_tls tls_append_held should_skip_dependency_processing lk_add_sorted find_place insert_at
run5 = refl

run6 : perform assoc_lib plain_lib (before 303 2 10) w5 ≡ done w6
unfolding lksmith_prelock lksmith_postlock lksmith_init_ignored get_or_create_tls lksmith_insert
    lksmith_find lksmith_prelock_process_depends lksmith_search search_all lk_add_before depend
    with_tls tls_append_held should_skip_dependency_processing lk_add_sorted find_place insert_at
run6 = refl

abbrev reached2 : Reach assoc_lib plain_lib 2 w2
reached2 = after (taken 1 10) (after (before 300 1 10) start refl run1) tt run2

free3 : w2.graph.heap 301 ≡ none
unfolding lksmith_prelock lksmith_postlock lksmith_init_ignored get_or_create_tls lksmith_insert
    lksmith_find lksmith_prelock_process_depends lksmith_search search_all lk_add_before depend
    with_tls tls_append_held should_skip_dependency_processing lk_add_sorted find_place insert_at
free3 = refl

free4 : w3.graph.heap 302 ≡ none
unfolding lksmith_prelock lksmith_postlock lksmith_init_ignored get_or_create_tls lksmith_insert
    lksmith_find lksmith_prelock_process_depends lksmith_search search_all lk_add_before depend
    with_tls tls_append_held should_skip_dependency_processing lk_add_sorted find_place insert_at
free4 = refl

free6 : w5.graph.heap 303 ≡ none
unfolding lksmith_prelock lksmith_postlock lksmith_init_ignored get_or_create_tls lksmith_insert
    lksmith_find lksmith_prelock_process_depends lksmith_search search_all lk_add_before depend
    with_tls tls_append_held should_skip_dependency_processing lk_add_sorted find_place insert_at
free6 = refl

abbrev reached5 : Reach assoc_lib plain_lib 5 w5
reached5 =
    after (taken 2 20)
      (after (before 302 2 20) (after (before 301 1 20) reached2 free3 run3) free4 run4) tt run5

abbrev reached6 : Reach assoc_lib plain_lib 6 w6
reached6 = after (before 303 2 10) reached5 free6 run6

first_held : Checks assoc_lib plain_lib (record lock_answers { lock_memory = some 301 }) 1 10 20 w2
unfolding lksmith_prelock lksmith_postlock lksmith_init_ignored get_or_create_tls lksmith_insert
    lksmith_find lksmith_prelock_process_depends lksmith_search search_all lk_add_before depend
    with_tls tls_append_held should_skip_dependency_processing lk_add_sorted find_place insert_at
first_held = record {
  tls = record main_tls { held = 10 ∷ [] };
  frames = (102 ∷ []) ∷ [];
  node = 300;
  runs = (refl, refl);
  held = inl refl;
  found = refl;
  other = λ e. omega (arith, e);
  traced = refl;
  checked = refl;
  memory = (301, refl);
  grow = λ j. refl;
}

second_held : Checks assoc_lib plain_lib (record lock_answers { lock_memory = some 303 }) 2 20 10 w5
unfolding lksmith_prelock lksmith_postlock lksmith_init_ignored get_or_create_tls lksmith_insert
    lksmith_find lksmith_prelock_process_depends lksmith_search search_all lk_add_before depend
    with_tls tls_append_held should_skip_dependency_processing lk_add_sorted find_place insert_at
second_held = record {
  tls = record main_tls { held = 20 ∷ [] };
  frames = (102 ∷ []) ∷ [];
  node = 301;
  runs = (refl, refl);
  held = inl refl;
  found = refl;
  other = λ e. omega (arith, e);
  traced = refl;
  checked = refl;
  memory = (303, refl);
  grow = λ j. refl;
}

abbrev cyclic : Ways (Took assoc_lib plain_lib reached6) 10 10
cyclic = next (inl (inl (inr (refl, first_held)))) (once (inr (refl, second_held)))

cycle-reported_example : (held : ℕ) × In held (inversions w6.log)
cycle-reported_example = cycle-reported assoc_lib plain_lib 6 w6 reached6 10 (omega arith) cyclic

told : In 20 (inversions w6.log)
unfolding lksmith_prelock lksmith_postlock lksmith_init_ignored get_or_create_tls lksmith_insert
    lksmith_find lksmith_prelock_process_depends lksmith_search search_all lk_add_before depend
    with_tls tls_append_held should_skip_dependency_processing lk_add_sorted find_place insert_at
told = inl refl

reported-cycle_example : (p : ℕ) × Ways (Nested assoc_lib plain_lib reached6) p p
reported-cycle_example = reported-cycle assoc_lib plain_lib 6 w6 reached6 20 (omega arith) told
