-- ===== src/Support/Laws.antt =====
-- What the helpers of the unit tests do.
use lksmith.Base.{
  take_all, ℕ, ◌+◌, ◌*◌, ◌%◌, ◌^◌, ◌<◌, ◌≤◌, ◌≡◌, ◌≢◌, ==_ne, refl, ap, ◌∙◌, ◌↔◌, ◌⊎◌, true, List,
  [], ◌∷◌, ◌++◌, some, arith, ◌==◌, ◌&&◌, if◌then◌else◌, length, take, times, In, done,
}
use lksmith.Lock.{Text}
use lksmith.Holders.{same_text}
use lksmith.Log.{
  Log, LogAnswers, uninit, callback, to_callback, hex_prefix, callback_prefix,
  lksmith_errora_unlocked, log_line, log_ready, lksmith_log_init, callback_set, lksmith_log_init_cb,
  log_to, cb_at,
}
use lksmith.Support.{
  set_error_cb, value_of, find_recorded_error, num_recorded_errors, Timespec, timespec_add_milli,
}

found_iff :
    (expect : ℕ) (errors : List ℕ)
    → ((find_recorded_error expect errors).0 ≡ true) ↔ In expect errors
unfolding find_recorded_error
found_iff expect [] = ground arith
found_iff expect (code ∷ next) = ground (arith, found_iff expect next)

find-times :
    (expect code : ℕ) (errors : List ℕ)
    → times errors code
      ≡ (if (find_recorded_error expect errors).0 && (expect == code) then 1 else 0)
        + times (find_recorded_error expect errors).1 code
unfolding find_recorded_error
find-times expect code [] = ground arith
find-times expect code (c ∷ next) = ground (arith, find-times expect code next)

find-num :
    (expect : ℕ) (errors : List ℕ)
    → num_recorded_errors errors
      ≡ (if (find_recorded_error expect errors).0 then 1 else 0)
        + num_recorded_errors (find_recorded_error expect errors).1
unfolding find_recorded_error num_recorded_errors
find-num expect [] = ground arith
find-num expect (c ∷ next) = ground (arith, find-num expect next)

-- find_recorded_error finds a code exactly if it was recorded and not taken yet; it then takes one
-- entry of this code and no other, and num_recorded_errors counts one less.
find_recorded_error_lem :
    (expect code : ℕ) (errors : List ℕ)
    → let (found, rest) = find_recorded_error expect errors in
      ((found ≡ true) ↔ In expect errors)
      × (times errors code ≡ (if found && (expect == code) then 1 else 0) + times rest code)
      × (num_recorded_errors errors ≡ (if found then 1 else 0) + num_recorded_errors rest)
find_recorded_error_lem expect code errors =
    (found_iff expect errors, find-times expect code errors, find-num expect errors)

-- A time in nanoseconds.
abbrev pub nanoseconds : Timespec → ℕ
nanoseconds ts = ts.tv_sec * 1000000000 + ts.tv_nsec

abbrev pub IsNormal : Timespec → Type 0
IsNormal ts = ts.tv_nsec < 1000000000

-- timespec_add_milli adds 1000 nanoseconds for each of `ms`, as long as their product fits into an
-- unsigned int; the result is a normal time exactly if less than a second comes together, or more than
-- one and less than two.
pub timespec_add_milli_lem :
    (ts : Timespec) (ms : ℕ)
    → IsNormal ts
    → ms * 1000 < 2 ^ 32
    → (nanoseconds (timespec_add_milli ts ms) ≡ nanoseconds ts + ms * 1000)
      × (IsNormal (timespec_add_milli ts ms) ↔ (
          (ts.tv_nsec + ms * 1000 < 1000000000)
          ⊎ ((1000000000 < ts.tv_nsec + ms * 1000) × (ts.tv_nsec + ms * 1000 < 2000000000))))
unfolding timespec_add_milli
timespec_add_milli_lem ts ms normal small =
    let n : (ts.tv_nsec + ms * 1000 % 2 ^ 32) % 2 ^ 64 ≡ ts.tv_nsec + ms * 1000 = omega arith in
    rw n (ground arith)

value_of-set_error_cb :
    (hex : ℕ → Text) (cb : ℕ)
    → length (hex cb) ≤ 16
    → value_of (set_error_cb hex cb) ≡ callback_prefix ++ hex_prefix ++ hex cb
unfolding set_error_cb
value_of-set_error_cb hex cb l = rw (take_all 4070 (hex cb) (omega arith)) refl

log_init-callback :
    (digits : Text) (cb : ℕ) (a : LogAnswers) (s : Log)
    → cb ≢ 0
    → a.strtoull (hex_prefix ++ digits) ≡ some cb
    → a.env ≡ some (callback_prefix ++ hex_prefix ++ digits)
    → lksmith_log_init a s ≡ record s { type = callback; cb = some cb }
unfolding lksmith_log_init lksmith_log_init_cb cb_at callback_set same_text
log_init-callback digits cb a s real reads env = rw (env, reads, ==_ne cb 0 real) refl

-- After set_error_cb of a callback that is not null, the first message goes to the callback, cut to 4095 characters, for a conversion of
-- at most 16 hexadecimal digits that strtoull reads back.
pub set_error_cb-errora :
    (hex : ℕ → Text) (cb e : ℕ) (text : Text) (a : LogAnswers) (s : Log)
    → cb ≢ 0
    → length (hex cb) ≤ 16
    → a.strtoull (hex_prefix ++ hex cb) ≡ some cb
    → a.env ≡ some (value_of (set_error_cb hex cb))
    → s.type ≡ uninit
    → lksmith_errora_unlocked a e text s
      ≡ done (record s {
        type = callback;
        cb = some cb;
        lines = s.lines ++ to_callback cb e (take 4095 text) ∷ [];
      })
unfolding lksmith_errora_unlocked log_line log_ready log_to
set_error_cb-errora hex cb e text a s real l reads env new =
    let set =
      log_init-callback (hex cb) cb a s real reads
        (env ∙ ap some (value_of-set_error_cb hex cb l)) in
    let ready : log_ready s.type a s ≡ record s { type = callback; cb = some cb } =
      ap (λ t. log_ready t a s) new ∙ set in
    ap (log_line e text) ready
