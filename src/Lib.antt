-- ===== src/Lib.antt =====
-- Verification of Locksmith, a library that checks the use of pthreads locks at run time.
--
-- Locksmith puts itself between a program and pthreads. The handlers (handler.c) call the API
-- functions of lksmith.c around each real pthreads function. These keep a tree of lock structures
-- with a graph of which lock was taken before which, a tree of condition variables, and for each
-- thread the list of the locks that it holds; and they log what the program does wrong.
--
-- Files, with the functions of lksmith.c that they model:
--   Code, Report     the codes that functions return, and the logged messages as data
--   Lock             struct lksmith_lock, lksmith_holder, lksmith_lock_props, and the heap
--   Held             tls_append_held, tls_remove_held, tls_contains_lid
--   Sorted           lk_add_sorted, lk_remove_sorted
--   Holders          lk_holder_add, lk_holder_remove
--   Tree             the comparison of nodes, and what is used of the red-black tree macros of
--                    tree.h, as an interface
--   Graph            g_tree, g_color, lksmith_insert, lksmith_find, lk_add_before, and the removal
--                    in lksmith_destroy
--   Search           lksmith_search
--   Depends          lksmith_prelock_process_depends
--   Cond             lksmith_cond_prewait, lksmith_cond_postwait, the search of
--                    lksmith_cond_predestroy
--   Ignore           lksmith_init_ignored, should_skip_dependency_processing
--   World            the globals, lksmith_init, get_or_create_tls, init_tls, lksmith_tls_destroy
--   Api              lksmith_optional_init, lksmith_destroy, lksmith_check_locked, the thread
--                    names, the getters of the ignored frames;
--                    Api/Locking: lksmith_prelock, lksmith_postlock; Api/Unlocking:
--                    lksmith_preunlock, lksmith_postunlock; Api/Predestroy:
--                    lksmith_cond_predestroy
--   Handler          the wrappers of handler.c for mutexes and spin locks; Handler/Waiting: those for
--                    condition variables
--   Log              error.c: the log target, and the output of a message with its backtrace
--   Spin             util.c: the spin lock, and the steps of threads that take it
--   Backtrace        Backtrace/Libc: libc_backtrace.c; Backtrace/Unwind: libunwind_backtrace.c
--   System           the API functions as steps of a system, and what holds in all its states;
--                    System/Linking: which mutexes were held when which were taken;
--                    System/Stale: threads whose storage was destroyed;
--                    System/Trace: lksmith_error_with_ti
--   Platform         linux_platform.c and posix_platform.c
--   Dump             fwdprintf of util.c, holder_dump and lk_dump; Dump/Trees: lk_dump_to_stderr and
--                    tree_print
--   Support          test.c: the helpers of the unit tests
--   Programs         the EXPECT macros of test.h, and test programs as statements that run over the
--                    library: Programs/Simple: simple_unit.c; Programs/Errors: error_unit.c;
--                    Programs/Names: thread_unit.c; Programs/Skipping: ignore_unit.c
--   Base, Tests      shared helpers; concrete runs and instances of the theorems
--
-- How state corresponds. A pointer is a number, and 0 is the null pointer where the source tests for
-- it. A heap maps addresses to live structures; a read elsewhere is the fault `dangling`, and one
-- through a null pointer `null_deref`. A C array with its length is a list; in Backtrace/Unwind its
-- places may be uninitialized, and an access behind its end is the fault `overrun`. Each function runs
-- under a lock of Locksmith from its first to its last access of shared state, so it is one step. What
-- malloc, getenv, the backtrace library and pthreads answer is an argument. The wrappers of handler.c
-- have as further arguments what the other threads do while a real function runs, and give the list of
-- the real functions that they called. The tree macros, qsort, bsearch and fnmatch are interfaces with
-- their documented laws, and each has an instance.
--
-- Bounds. g_color, refcnt and num_spins wrap as in C. The recursion of lksmith_search takes fuel, one
-- more than the number of locks in the tree: each level of it paints a lock that was not painted.
-- The loops of Backtrace double a length: 11 rounds of the one from 0 to 8192, and 64 rounds of the
-- other, which reaches 2^62, are enough.
-- The conversion of the number of frames to int in Backtrace/Unwind and the size that it asks realloc
-- for wrap as in C. The int counters of the other arrays are not bounded in the model.
--
-- A test program is a list of statements. Its threads take turns statement by statement, in an order
-- that is an argument; the semaphores are an interface, and the answers of the real functions are
-- given for each call.
--
-- Not modelled: the text of messages (the API functions log them as data, apart from Log), the tests
-- of condition variables, lock_unit.c, which is not built, mem.c, and the backtraces within the API
-- functions: there the frames are an answer of the environment. The storage of threads is modelled with
-- HAVE_IMPROVED_TLS of config.h only; a thread that starts has a number of its own.
pub mod Api
pub mod Backtrace
pub mod Base
pub mod Code
pub mod Cond
pub mod Depends
pub mod Dump
pub mod Graph
pub mod Handler
pub mod Held
pub mod Holders
pub mod Ignore
pub mod Lock
pub mod Log
pub mod Platform
pub mod Programs
pub mod Report
pub mod Search
pub mod Sorted
pub mod Spin
pub mod Support
pub mod System
pub mod Tests
pub mod Tree
pub mod World
