-- ===== src/Tests/Traced.antt =====
-- A message of a thread that has storage, with the backtrace of libc, which takes lock 10 meanwhile.
use lksmith.Base.{ℕ, ◌≡◌, refl, true, List, [], ◌∷◌, none, some, done}
use lksmith.Code.{ok}
use lksmith.Lock.{Text}
use lksmith.Tree.Assoc.{assoc_lib}
use lksmith.Log.{Log, callback, to_callback, lksmith_errora_with_bt}
use lksmith.Backtrace.Libc as Libc
use lksmith.System.{Call, prelock, postlock}
use lksmith.System.Trace.{Traced, libc_backtracer, lksmith_error_with_ti, lksmith_error_with_ti_lem}
use lksmith.Tests.Ignored.{plain_lib}
use lksmith.Tests.Threads.{answers, lock_answers, main_tls, started}
use lksmith.Tests.Frames.{libc, no_scratch}
use lksmith.Tests.Logged.{no_file}

abbrev to_five : Log
to_five = record { type = callback; stream = none; cb = some 5; lines = [] }

abbrev both : List Text
both = (102 ∷ 7 ∷ []) ∷ (102 ∷ 8 ∷ []) ∷ (102 ∷ 9 ∷ []) ∷ []

abbrev traced : Traced assoc_lib plain_lib (libc_backtracer libc)
traced = record { world = started; scratch = no_scratch; log = to_five }

abbrev locking : List Call
locking = prelock lock_answers 1 10 true ∷ postlock answers true 1 10 ok ∷ []

abbrev logged : Log
logged = record {
  type = callback;
  stream = none;
  cb = some 5;
  lines =
      to_callback 5 35 (104 ∷ [])
      ∷ to_callback 5 0 (102 ∷ 7 ∷ 10 ∷ [])
      ∷ to_callback 5 0 (102 ∷ 8 ∷ 10 ∷ [])
      ∷ to_callback 5 0 (102 ∷ 9 ∷ 10 ∷ [])
      ∷ [];
}

lksmith_error_with_ti_lem_example :
    (s : Traced assoc_lib plain_lib (libc_backtracer libc)) × (lksmith_error_with_ti assoc_lib
        plain_lib
        (libc_backtracer libc)
        no_file
        answers
        locking
        1
        none
        35
        (104 ∷ [])
        traced
      ≡ done s)
    × (lksmith_error_with_ti assoc_lib plain_lib
          (libc_backtracer libc)
          no_file
          answers
          locking
          1
          (some main_tls)
          35
          (104 ∷ [])
          traced
        ≡ done s)
    × (s.world.graph ≡ started.graph)
    × (s.world.conds ≡ started.conds)
    × (s.world.log ≡ started.log)
    × ((j : ℕ) → s.world.tls j ≡ started.tls j)
    × (s.log ≡ logged)
unfolding Libc.bt_frames_create lksmith_errora_with_bt Libc.fill_scratch Libc.try_backtrace
    Libc.grow_scratch
lksmith_error_with_ti_lem_example =
    lksmith_error_with_ti_lem assoc_lib plain_lib (libc_backtracer libc) no_file answers locking 1
      main_tls 35 (104 ∷ []) traced (some both) (record { allocated = true; len = 16 }) logged refl
      (refl, (refl, tt)) refl refl refl
