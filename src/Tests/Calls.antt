-- ===== src/Tests/Calls.antt =====
-- One thread that starts the library with its first lock, and then takes this lock.
use lksmith.Base.{
  ◌≡◌, ◌≢◌, refl, false, true, [], ◌∷◌, none, some, arith, done, fault, dangling, out_of_fuel,
}
use lksmith.Lock.{store}
use lksmith.Graph.{IsWf, new_lock, lksmith_insert}
use lksmith.Cond.Laws as Waits
use lksmith.Depends.Acyclic.{IsAcyclic}
use lksmith.Tree.Assoc.{assoc_lib}
use lksmith.Ignore.{lksmith_init_ignored}
use lksmith.World.{World, get_or_create_tls}
use lksmith.Api.{lksmith_optional_init}
use lksmith.System.{Call, optional_init, prelock, perform, unstarted, Reach, start, after}
use lksmith.System.Safety.{calls-safe, quiet-IsAcyclic}
use lksmith.Tests.Ignored.{plain_lib}
use lksmith.Tests.Threads.{answers, lock_answers, main_tls}

abbrev opening : Call
opening = optional_init answers (some 300) 1 10 false true

abbrev taking : Call
taking = prelock (record lock_answers { lock_memory = some 400 }) 1 10 true

abbrev opened : World assoc_lib
opened = record {
  initialized = true;
  graph = record {
    tree = (10, 300) ∷ [];
    heap = store 300 (new_lock 10 false true) (λ a. none);
    color = 0;
  };
  conds = record { tree = []; heap = λ a. none };
  ignored_frames = [];
  ignored_patterns = [];
  tls = store 1 (record main_tls { held = [] }) (λ t. none);
  freed = λ t. false;
  log = [];
}

opened_run : perform assoc_lib plain_lib opening (unstarted assoc_lib plain_lib) ≡ done opened
unfolding lksmith_optional_init get_or_create_tls lksmith_init_ignored lksmith_insert
opened_run = refl

opened_reached : Reach assoc_lib plain_lib 1 opened
opened_reached = after opening start refl opened_run

calls-safe_example :
    IsWf assoc_lib opened.graph
    × Waits.IsWf assoc_lib opened.conds
    × (perform assoc_lib plain_lib taking opened ≢ fault dangling)
    × (perform assoc_lib plain_lib taking opened ≢ fault out_of_fuel)
calls-safe_example =
    calls-safe assoc_lib plain_lib 1 opened taking opened_reached (omega arith) refl (λ e. refl)

quiet-IsAcyclic_example : IsAcyclic opened.graph.heap
quiet-IsAcyclic_example =
    quiet-IsAcyclic assoc_lib plain_lib 1 opened opened_reached (omega arith) refl
