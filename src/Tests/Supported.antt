-- ===== src/Tests/Supported.antt =====
-- The helpers of the unit tests on small inputs.
use lksmith.Base.{ℕ, ◌+◌, ◌*◌, ◌<◌, ◌≡◌, refl, ◌↔◌, ◌⊎◌, false, [], ◌∷◌, some, none, arith, done}
use lksmith.Lock.{Text}
use lksmith.Log.{Log, LogAnswers, uninit, callback, to_callback, lksmith_errora_unlocked}
use lksmith.Support.{set_error_cb, value_of, Timespec, timespec_add_milli}
use lksmith.Support.Laws.{nanoseconds, IsNormal, timespec_add_milli_lem, set_error_cb-errora}

abbrev late : Timespec
late = record { tv_sec = 5; tv_nsec = 999000000 }

timespec_add_milli_lem_example :
    (nanoseconds (timespec_add_milli late 1000) ≡ nanoseconds late + 1000 * 1000)
    × (IsNormal (timespec_add_milli late 1000) ↔ (
        (999000000 + 1000 * 1000 < 1000000000)
        ⊎ ((1000000000 < 999000000 + 1000 * 1000) × (999000000 + 1000 * 1000 < 2000000000))))
timespec_add_milli_lem_example = timespec_add_milli_lem late 1000 (omega arith) (omega arith)

abbrev digit : ℕ → Text
digit a = (48 + a) ∷ []

abbrev reads_five : LogAnswers
reads_five = record {
  env = some (value_of (set_error_cb digit 5));
  fopen = false;
  strtoull = λ s. some 5;
}

abbrev at_start : Log
at_start = record { type = uninit; stream = none; cb = none; lines = [] }

set_error_cb-errora_example :
    lksmith_errora_unlocked reads_five 35 (104 ∷ 105 ∷ []) at_start
    ≡ done (record {
      type = callback;
      stream = none;
      cb = some 5;
      lines = to_callback 5 35 (104 ∷ 105 ∷ []) ∷ [];
    })
set_error_cb-errora_example =
    set_error_cb-errora digit 5 35 (104 ∷ 105 ∷ []) reads_five at_start (omega arith) (omega arith)
      refl refl refl
