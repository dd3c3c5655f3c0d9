-- ===== src/Tests/Threads.antt =====
-- One thread, with the locks 10 and 20 of the tests of the graph.
use lksmith.Base.{◌≡◌, refl, inl, true, false, [], ◌∷◌, some, none, arith, done, fault, null_deref}
use lksmith.Code.{ok, err, ebusy}
use lksmith.Lock.{Lock, Holder, store}
use lksmith.Tree.Assoc.{assoc_lib}
use lksmith.Held.{tls_contains_lid}
use lksmith.Ignore.{IgnoreMemory}
use lksmith.World.{World, Tls, TlsAnswers}
use lksmith.Api.Warned.{Warned, is_due, postlock-Warned}
use lksmith.Api.{lksmith_set_thread_name}
use lksmith.Api.Calls.{Known}
use lksmith.Api.Enter.{Entered, lksmith_prelock-Entered}
use lksmith.Api.Cycle.{lock_unlock}
use lksmith.Api.Undone.{lock_failed, renamed-fault}
use lksmith.Api.Locking.{LockAnswers, lksmith_prelock, lksmith_postlock}
use lksmith.Api.Unlocking.{lksmith_preunlock, lksmith_postunlock}
use lksmith.Tests.Graphs.{two_locks, two_locks-IsWf, lock_a, lock_b}
use lksmith.Tests.Ignored.{plain_lib}

abbrev pub memory_left : IgnoreMemory
memory_left = record { env_copy = true; array = λ n. true; copy = λ i. true }

abbrev pub answers : TlsAnswers
answers = record {
  init = record {
    loaded = true;
    frames_env = none;
    frames_memory = memory_left;
    patterns_env = none;
    patterns_memory = memory_left;
    key = ok;
    tree_mutex = ok;
    cond_mutex = ok;
  };
  memory = true;
  thread_name = 109 ∷ [];
  setspecific = ok;
}

abbrev pub lock_answers : LockAnswers
lock_answers = record {
  tls = answers;
  frames = some ((102 ∷ []) ∷ []);
  lock_memory = some 300;
  grow = λ i. true;
}

-- The thread "m" holds lock 10.
abbrev pub main_tls : Tls
main_tls = record { name = 109 ∷ []; held = 10 ∷ []; num_spins = 0; intercept = true }

abbrev main_holder : Holder
main_holder = record { name = 109 ∷ []; bt_frames = (102 ∷ []) ∷ [] }

abbrev pub started : World assoc_lib
started = record {
  initialized = true;
  graph = two_locks;
  conds = record { tree = []; heap = λ a. none };
  ignored_frames = [];
  ignored_patterns = [];
  tls = store 1 main_tls (λ t. none);
  freed = λ t. false;
  log = [];
}

lksmith_prelock-Entered_example :
    (w : World assoc_lib) × (lksmith_prelock assoc_lib plain_lib lock_answers 1 20 true started
      ≡ done (ok, w))
    × Entered assoc_lib plain_lib 200 20 lock_b main_holder started w
lksmith_prelock-Entered_example =
    lksmith_prelock-Entered assoc_lib plain_lib lock_answers 1 20 true main_tls ((102 ∷ []) ∷ [])
      200 lock_b started (refl, refl) refl two_locks-IsWf (omega arith) (inl (refl, refl))

lock_unlock_example :
    (w1 w2 w3 w4 : World assoc_lib) × (tls2 : Tls) × (lksmith_prelock assoc_lib plain_lib
        lock_answers 1 20 true started
      ≡ done (ok, w1))
    × (lksmith_postlock assoc_lib plain_lib answers true 1 20 ok w1 ≡ done (tt, w2))
    × (w2.tls 1 ≡ some tls2)
    × (tls_contains_lid tls2.held 20 ≡ true)
    × (lksmith_preunlock assoc_lib plain_lib answers 1 20 w2 ≡ done (ok, w3))
    × (lksmith_postunlock assoc_lib plain_lib answers 1 20 w3 ≡ done (tt, w4))
    × (w4.tls 1 ≡ some main_tls)
    × (l4 : Lock) × Known assoc_lib 200 20 l4 w4.graph
    × (l4.holders ≡ [])
lock_unlock_example =
    lock_unlock assoc_lib plain_lib 1 200 20 lock_answers answers answers answers true main_tls
      ((102 ∷ []) ∷ []) lock_b started (refl, refl) refl (omega arith) refl two_locks-IsWf
      (omega arith) (inl (refl, refl))

lock_failed_example :
    (w1 w2 : World assoc_lib) × (lksmith_prelock assoc_lib plain_lib lock_answers 1 20 true started
      ≡ done (ok, w1))
    × (lksmith_postlock assoc_lib plain_lib answers true 1 20 (err ebusy) w1 ≡ done (tt, w2))
    × (w2.tls ≡ started.tls)
    × (l2 : Lock) × Known assoc_lib 200 20 l2 w2.graph
    × (l2.holders ≡ [])
lock_failed_example =
    lock_failed assoc_lib plain_lib 1 200 20 lock_answers answers true true (err ebusy) main_tls
      ((102 ∷ []) ∷ []) lock_b started (refl, refl) refl refl two_locks-IsWf (omega arith) refl
      (inl (refl, refl))

renamed-fault_example :
    (w1 w2 : World assoc_lib) × (lksmith_set_thread_name assoc_lib plain_lib answers 1
        (120 ∷ [])
        started
      ≡ done (ok, w1))
    × (lksmith_preunlock assoc_lib plain_lib answers 1 10 w1 ≡ done (ok, w2))
    × (lksmith_postunlock assoc_lib plain_lib answers 1 10 w2 ≡ fault null_deref)
unfolding tls_contains_lid
renamed-fault_example =
    renamed-fault assoc_lib plain_lib 1 100 10 answers answers answers (120 ∷ []) lock_a main_tls
      started (refl, refl) (record { wf = two_locks-IsWf; found = refl; live = refl }) refl tt

-- Lock 20 with a spin lock held.
abbrev spinning_tls : Tls
spinning_tls = record main_tls { num_spins = 1 }

abbrev spinning : World assoc_lib
spinning = record started { tls = store 1 spinning_tls (λ t. none) }

postlock-Warned_example :
    (w' : World assoc_lib) × (lksmith_postlock assoc_lib plain_lib answers true 1 20 ok spinning
      ≡ done (tt, w'))
    × Warned assoc_lib plain_lib 1 200 20 lock_b
        (is_due assoc_lib plain_lib 1 200 20 lock_b spinning_tls)
        spinning
        w'
postlock-Warned_example =
    postlock-Warned assoc_lib plain_lib 1 200 20 answers lock_b spinning_tls spinning (refl, refl)
      (record { wf = two_locks-IsWf; found = refl; live = refl })
