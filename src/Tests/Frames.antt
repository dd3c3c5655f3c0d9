-- ===== src/Tests/Frames.antt =====
-- Backtraces of small stacks, with memory left.
use lksmith.Base.{
  ℕ, zero, suc, ◌<◌, ◌≤◌, ◌≡◌, refl, ◌⊎◌, inl, true, false, List, [], ◌∷◌, length, take, map,
  Option, some, arith, ltb, if◌then◌else◌, done, fault, null_deref, overrun, uninitialized,
}
use lksmith.Code.{ok}
use lksmith.Lock.{Text}
use lksmith.Backtrace.Libc as Libc
use lksmith.Backtrace.Libc.Total.{IsScratch, Named, bt_frames_create_lem}
use lksmith.Backtrace.Unwind.{
  UnwindAnswers, found, no_room, not_found, fname_rounds, bt_frames_create,
}
use lksmith.Backtrace.Unwind.Names.{HasName, Reads, do_get_proc_fname_lem}
use lksmith.Backtrace.Unwind.Walk.{HasMemory, Snug, AllNamed}
use lksmith.Backtrace.Unwind.Overrun.{
  Created, bt_frames_create-overrun, bt_frames_create-uninitialized,
}

abbrev addresses : List ℕ
addresses = 7 ∷ 8 ∷ 9 ∷ []

abbrev pub libc : Libc.LibcAnswers
libc = record {
  backtrace = λ n. take n addresses;
  realloc = λ n. true;
  backtrace_symbols = λ frames. some (map (λ a. 102 ∷ a ∷ []) frames);
}

abbrev pub no_scratch : Libc.Scratch
no_scratch = record { allocated = false; len = 0 }

bt_frames_create_lem_example :
    (r : Option (ℕ × List Text)) × (s : Libc.Scratch) × (Libc.bt_frames_create libc no_scratch
      ≡ done (r, s))
    × IsScratch s
    × (0 ≤ s.len)
    × Named libc addresses (λ n. refl) r s
bt_frames_create_lem_example =
    bt_frames_create_lem libc addresses (λ n. refl) no_scratch (inl (refl, refl))

abbrev main_name : Text
main_name = 109 ∷ 97 ∷ 105 ∷ 110 ∷ []

-- All frames but number 5 have the name.
abbrev named_by : ℕ → List ℕ → UnwindAnswers
named_by unnamed stack = record {
  getcontext = ok;
  init_local = ok;
  stack = stack;
  get_proc_name = λ c n.
      if ltb c unnamed
      then (if ltb (length main_name) n then found main_name else no_room)
      else not_found 3;
  realloc_buf = λ n. true;
  realloc_frames = λ n. true;
  strdup = λ c. true;
}

memory_left : (unnamed : ℕ) (stack : List ℕ) → HasMemory (named_by unnamed stack)
memory_left unnamed stack = record { frames = λ n. refl; buf = λ n. refl; copy = λ c. refl }

zero_named : (stack : List ℕ) → HasName (named_by 1 stack) 0 main_name
zero_named stack = (omega arith, λ n. refl)

abbrev zeros : ℕ → List ℕ
zeros zero = []
zeros (suc n) = 0 ∷ zeros n

do_get_proc_fname_lem_example : Reads (named_by 1 []) 0 main_name fname_rounds 0
do_get_proc_fname_lem_example =
    do_get_proc_fname_lem (named_by 1 []) 0 main_name (zero_named []) 0 (omega arith)

zeros_named : (stack : List ℕ) (n : ℕ) → AllNamed (named_by 1 stack) (λ c. main_name) (zeros n)
zeros_named stack zero = tt
zeros_named stack (suc n) = (zero_named stack, zeros_named stack n)

bt_frames_create-overrun_example :
    ((zeros 32 ≡ []) × (bt_frames_create (named_by 1 (zeros 32)) ≡ fault null_deref))
    ⊎ ((cap : ℕ) × Snug 32 cap
        × ((32 ≡ cap → bt_frames_create (named_by 1 (zeros 32)) ≡ fault overrun)
            × (32 < cap
                → Created
                    (bt_frames_create (named_by 1 (zeros 32)))
                    (map (λ c. main_name) (zeros 32)))))
bt_frames_create-overrun_example =
    bt_frames_create-overrun (named_by 1 (zeros 32)) (λ c. main_name) (memory_left 1 (zeros 32))
      (zeros 32) refl refl refl (zeros_named (zeros 32) 32) (omega arith)

bt_frames_create-uninitialized_example :
    bt_frames_create (named_by 1 (0 ∷ 5 ∷ [])) ≡ fault uninitialized
bt_frames_create-uninitialized_example =
    bt_frames_create-uninitialized (named_by 1 (0 ∷ 5 ∷ [])) (λ c. main_name)
      (memory_left 1 (0 ∷ 5 ∷ [])) (0 ∷ []) [] 5 3 refl refl refl (zeros_named (0 ∷ 5 ∷ []) 1)
      (omega arith) (λ n. refl)
