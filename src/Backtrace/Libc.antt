-- ===== src/Backtrace/Libc.antt =====
-- libc_backtrace.c: the frames of the calling thread by backtrace(3), through a scratch area that
-- grows until they fit.
pub mod Total
use lksmith.Base.{
  ℕ, zero, suc, ◌*◌, Bool, true, false, not, List, length, Option, none, some, ltb, ◌==◌,
  if◌then◌else◌, Outcome, done, fault, out_of_fuel, ◌>>=◌,
}
use lksmith.Lock.{Text}

abbrev pub initial_scratch_size : ℕ
initial_scratch_size = 16

abbrev pub max_scratch_size : ℕ
max_scratch_size = 8192

-- *scratch and *scratch_len: whether the area is allocated, and for how many frames.
pub record Scratch : Type 0 where
  pub allocated : Bool
  pub len : ℕ

-- The calls of libc: the return addresses that backtrace(3) writes to an area of a length, whether
-- realloc(3) gives an area of a length, and the strings of backtrace_symbols(3).
pub record LibcAnswers : Type 0 where
  pub backtrace : ℕ → List ℕ
  pub realloc : ℕ → Bool
  pub backtrace_symbols : List ℕ → Option (List Text)

-- The addresses, which the source leaves in the scratch area; `none` is -ENOMEM.
unfoldable pub try_backtrace : LibcAnswers → Scratch → Option (List ℕ)
try_backtrace a s =
    if not s.allocated
    then none
    else (let frames = a.backtrace s.len in if length frames == s.len then none else some frames)

unfoldable pub next_size : ℕ → ℕ
next_size len = if len == 0 then initial_scratch_size else len * 2

-- The rest of a round that did not succeed; `none` is the return of -ENOMEM.
unfoldable pub grow_scratch : LibcAnswers → Scratch → Option Scratch
unfolding next_size
grow_scratch a s =
    if ltb max_scratch_size (next_size s.len)
    then none
    else (if a.realloc (next_size s.len)
        then some (record { allocated = true; len = next_size s.len })
        else none)

-- The rounds of the loop.
unfoldable pub fill_scratch : ℕ → LibcAnswers → Scratch → Outcome (Option (List ℕ) × Scratch)
fill_scratch zero a s = fault out_of_fuel
fill_scratch (suc fuel) a s = elim (try_backtrace a s) [
  | some frames ↦ done (some frames, s)
  | none ↦ elim (grow_scratch a s) [ some s' ↦ fill_scratch fuel a s' | none ↦ done (none, s) ]
]

-- From nothing to 8192 by doubling 16, and one round to give up.
abbrev pub rounds : ℕ
rounds = 11

-- The number of frames and *out, and the scratch area of the thread afterwards; `none` is -ENOMEM.
unfoldable pub named : LibcAnswers → Option (List ℕ) × Scratch → Option (ℕ × List Text) × Scratch
named a (none, s) = (none, s)
named a (some frames, s) = elim (a.backtrace_symbols frames) [
  | some symbols ↦ (some (length frames, symbols), s)
  | none ↦ (none, s)
]

unfoldable pub bt_frames_create : LibcAnswers → Scratch → Outcome (Option (ℕ × List Text) × Scratch)
unfolding named
bt_frames_create a s = fill_scratch rounds a s >>= λ r. done (named a r)
