-- ===== src/Support.antt =====
-- The helpers of the unit tests (test.c): the recorded errors, a callback as log target, and times.
pub mod Laws
use lksmith.Base.{
  ℕ, zero, suc, ◌+◌, ◌-◌, ◌*◌, ◌%◌, ◌^◌, Bool, true, false, List, [], ◌∷◌, ◌++◌, Option, none, some,
  ltb, ◌==◌, if◌then◌else◌, length, take, drop, Outcome, done, fault, aborted,
}
use lksmith.Code.{Code, ok, err, Errno}
use lksmith.Lock.{Text}
use lksmith.Log.{callback_prefix, hex_prefix, starts_with}

unfoldable pub die_on_error : ℕ → Outcome {0} Unit
die_on_error code = if code == 0 then done tt else fault aborted

-- "LKSMITH_LOG="
abbrev pub log_variable : Text
log_variable = 76 ∷ 75 ∷ 83 ∷ 77 ∷ 73 ∷ 84 ∷ 72 ∷ 95 ∷ 76 ∷ 79 ∷ 71 ∷ 61 ∷ []

-- The string that putenv gets, for the conversion %PRIxPTR.
unfoldable pub set_error_cb : (ℕ → Text) → ℕ → Text
set_error_cb hex cb = take 4095 (log_variable ++ callback_prefix ++ hex_prefix ++ hex cb)

-- What follows the `=` in such a string: the value of the variable for getenv.
abbrev pub value_of : Text → Text
value_of entry = drop (length log_variable) entry

-- g_recorded_errors is the list of the codes, the newest first. `memory` is the answer of calloc.
unfoldable pub record_error : Bool → ℕ → List ℕ → Outcome (List ℕ)
record_error memory code errors =
    if code == 0 then done errors else (if memory then done (code ∷ errors) else fault aborted)

unfoldable pub clear_recorded_errors : List ℕ → List ℕ
clear_recorded_errors [] = []
clear_recorded_errors (rec ∷ next) = clear_recorded_errors next

unfoldable pub find_recorded_error : ℕ → List ℕ → Bool × List ℕ
find_recorded_error expect [] = (false, [])
find_recorded_error expect (code ∷ next) =
    let rest = find_recorded_error expect next in
    if expect == code then (true, next) else (rest.0, code ∷ rest.1)

unfoldable pub num_recorded_errors : List ℕ → ℕ
num_recorded_errors [] = 0
num_recorded_errors (rec ∷ next) = num_recorded_errors next + 1

pub record Timespec : Type 0 where
  pub tv_sec : ℕ
  pub tv_nsec : ℕ

-- `none` for a failure of gettimeofday, which answers seconds and microseconds.
unfoldable pub get_current_timespec : Option (ℕ × ℕ) → Errno → Code × Option Timespec
get_current_timespec none errno = (err errno, none)
get_current_timespec (some (sec, usec)) errno =
    (ok, some (record { tv_sec = sec; tv_nsec = usec * 1000 }))

unfoldable pub timespec_add_milli : Timespec → ℕ → Timespec
timespec_add_milli ts ms =
    let nsec = (ts.tv_nsec + ms * 1000 % 2 ^ 32) % 2 ^ 64 in
    if ltb 1000000000 nsec
    then record { tv_sec = ts.tv_sec + 1; tv_nsec = nsec - 1000000000 }
    else record { tv_sec = ts.tv_sec; tv_nsec = nsec }
