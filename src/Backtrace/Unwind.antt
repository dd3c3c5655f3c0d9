-- ===== src/Backtrace/Unwind.antt =====
-- libunwind_backtrace.c: the frames of the calling thread by libunwind, as an array of strings that a
-- null pointer ends.
pub mod Names
pub mod Cells
pub mod Walk
pub mod Overrun
use lksmith.Base.{
  ℕ, zero, suc, ◌+◌, ◌-◌, ◌*◌, ◌%◌, ◌^◌, ◌⊎◌, inl, inr, Bool, true, false, not, List, [], ◌∷◌, ◌++◌,
  take, Option, none, some, ltb, ◌==◌, if◌then◌else◌, Outcome, done, fault, null_deref, overrun,
  uninitialized, out_of_fuel, ◌>>=◌,
}
use lksmith.Code.{Errno, eio, enomem, Code, ok, neg, failed}
use lksmith.Lock.{Text}

abbrev pub stack_buf_sz : ℕ
stack_buf_sz = 512

-- unw_get_proc_name: the name, -UNW_ENOMEM, or another error.
pub data NameAnswer : Type 0 where
  found : Text → NameAnswer
  no_room : NameAnswer
  not_found : ℕ → NameAnswer

-- The calls of libunwind and libc: unw_getcontext, unw_init_local, a cursor for each time that
-- unw_step finds a frame, the name of a frame for a buffer of a length, whether realloc gives a buffer
-- of a length or an array of so many bytes, and whether strdup has memory for the name of a frame.
pub record UnwindAnswers : Type 0 where
  pub getcontext : Code
  pub init_local : Code
  pub stack : List ℕ
  pub get_proc_name : ℕ → ℕ → NameAnswer
  pub realloc_buf : ℕ → Bool
  pub realloc_frames : ℕ → Bool
  pub strdup : ℕ → Bool

-- The messages to the error log, all with ENOMEM.
pub data Trouble : Type 0 where
  proc_name_failed : ℕ → Trouble
  no_name_buffer : ℕ → Trouble
  no_name_copy : Trouble
  getcontext_failed : Trouble
  init_local_failed : Code → Trouble
  no_array : ℕ → Trouble
  fname_failed : Errno → Trouble

-- The buffer that a round reads into: the one on the stack if there is none on the heap.
unfoldable pub buf_size : ℕ → ℕ
buf_size len = if len == 0 then stack_buf_sz else len

unfoldable pub next_len : ℕ → ℕ
next_len len = if len == 0 then stack_buf_sz * 2 else len * 2 % 2 ^ 64

-- What do_get_proc_fname returns: an error or the copied name, *heap_buf_len, and its messages.
abbrev pub Fname : Type 0
Fname = (Errno ⊎ Text) × ℕ × List Trouble

unfoldable pub fname_copy : UnwindAnswers → ℕ → ℕ → Text → Fname
fname_copy a cursor len name =
    if a.strdup cursor then (inr name, len, []) else (inl enomem, len, no_name_copy ∷ [])

-- The rounds of the loop; the heap has a buffer unless `len` is 0.
unfoldable pub do_get_proc_fname : ℕ → UnwindAnswers → ℕ → ℕ → Outcome Fname
unfolding buf_size next_len fname_copy
do_get_proc_fname zero a cursor len = fault out_of_fuel
do_get_proc_fname (suc fuel) a cursor len = elim (a.get_proc_name cursor (buf_size len)) [
  | found name ↦ done (fname_copy a cursor len name)
  | not_found ret ↦ done (inl eio, len, proc_name_failed ret ∷ [])
  | no_room ↦ elim (a.realloc_buf (next_len len)) [
    | true ↦ do_get_proc_fname fuel a cursor (next_len len)
    | false ↦ done (inl enomem, len, no_name_buffer (next_len len) ∷ [])
  ]
]

-- More doublings than the length of a buffer allows for.
abbrev pub fname_rounds : ℕ
fname_rounds = 64

-- A place of the array: memory as realloc leaves it, a null pointer, or a string of its own.
pub data Cell : Type 0 where
  garbage null : Cell
  str : Text → Cell

unfoldable pub garbage_cells : ℕ → List Cell
garbage_cells zero = []
garbage_cells (suc n) = garbage ∷ garbage_cells n

unfoldable pub put : ℕ → Cell → List Cell → Outcome (List Cell)
put i c [] = fault overrun
put zero c (x ∷ xs) = done (c ∷ xs)
put (suc i) c (x ∷ xs) = put i c xs >>= λ ys. done (x ∷ ys)

-- A write through `backtrace`, which may be null.
unfoldable pub put_at : ℕ → Cell → Option (List Cell) → Outcome (List Cell)
unfolding put
put_at i c none = fault null_deref
put_at i c (some cells) = put i c cells

unfoldable pub free_cells : List Cell → Outcome {0} Unit
free_cells [] = fault overrun
free_cells (garbage ∷ cells) = fault uninitialized
free_cells (null ∷ cells) = done tt
free_cells (str name ∷ cells) = free_cells cells

unfoldable pub bt_frames_free : Option (List Cell) → Outcome {0} Unit
unfolding free_cells
bt_frames_free none = done tt
bt_frames_free (some cells) = free_cells cells

-- The locals of bt_frames_create.
pub record Frames : Type 0 where
  pub backtrace : Option (List Cell)
  pub backtrace_len : ℕ
  pub cap : ℕ
  pub heap_buf_len : ℕ
  pub troubles : List Trouble

unfoldable pub new_cap : ℕ → ℕ
new_cap cap = if cap == 0 then 32 else cap * 2 % 2 ^ 64

-- realloc is asked for this many bytes; a pointer has 8.
abbrev pub array_bytes : ℕ → ℕ
array_bytes new = 8 * new % 2 ^ 64

-- And gives room for this many pointers, with as many of the old places as there is room for.
abbrev pub array_room : ℕ → ℕ
array_room new = new % 2 ^ 61

unfoldable pub grown_cells : Option (List Cell) → ℕ → ℕ → List Cell
unfolding garbage_cells
grown_cells none cap room = garbage_cells room
grown_cells (some cells) cap room =
    if ltb room cap then take room cells else cells ++ garbage_cells (room - cap)

-- Room for one more frame; the Boolean is false at the `goto done` of a failure.
unfoldable pub make_room : UnwindAnswers → Frames → Bool × Frames
unfolding new_cap grown_cells
make_room a f =
    let g = record f { backtrace_len = f.backtrace_len + 1 } in
    if not (ltb f.cap g.backtrace_len)
    then (true, g)
    else (if a.realloc_frames (array_bytes (new_cap f.cap))
        then (
          true,
          record g {
            backtrace = some (grown_cells f.backtrace f.cap (array_room (new_cap f.cap)));
            cap = new_cap f.cap;
          },
        )
        else (false, record g { troubles = f.troubles ++ no_array (new_cap f.cap) ∷ [] }))

-- The name of a frame into the last place of the array; the Boolean is false at a `goto done`.
unfoldable pub name_frame : UnwindAnswers → ℕ → Frames → Outcome (Bool × Frames)
unfolding do_get_proc_fname put_at
name_frame a cursor f = do_get_proc_fname fname_rounds a cursor f.heap_buf_len >>= λ (r, len, ts).
    elim r [
      | inl e ↦ done (
        false,
        record f { heap_buf_len = len; troubles = f.troubles ++ ts ++ fname_failed e ∷ [] },
      )
      | inr name ↦ put_at (f.backtrace_len - 1) (str name) f.backtrace >>= λ cells. done (
        true,
        record f { backtrace = some cells; heap_buf_len = len; troubles = f.troubles ++ ts },
      )
    ]

-- The body of the loop.
unfoldable pub add_frame : UnwindAnswers → ℕ → Bool × Frames → Outcome (Bool × Frames)
unfolding name_frame
add_frame a cursor (false, f) = done (false, f)
add_frame a cursor (true, f) = name_frame a cursor f

-- The loop over the frames that unw_step finds.
unfoldable pub walk_frames : UnwindAnswers → List ℕ → Frames → Outcome (Bool × Frames)
unfolding make_room add_frame
walk_frames a [] f = done (true, f)
walk_frames a (cursor ∷ stack) f = add_frame a cursor (make_room a f) >>= λ (added, g). elim added [
  | true ↦ walk_frames a stack g
  | false ↦ done (false, g)
]

-- The int that bt_frames_create returns: a number of frames, -EIO or another number below 0.
pub data Ret : Type 0 where
  count : ℕ → Ret
  failure : Code → Ret
  below : ℕ → Ret

-- The conversion of a size_t to int.
unfoldable pub as_int : ℕ → Ret
as_int n = let m = n % 2 ^ 32 in if ltb m (2 ^ 31) then count m else below (2 ^ 32 - m)

-- What the caller sees, with *out and the messages.
pub record Backtrace : Type 0 where
  pub ret : Ret
  pub out : Option (List Cell)
  pub messages : List Trouble

abbrev no_frames : Frames
no_frames = record { backtrace = none; backtrace_len = 0; cap = 0; heap_buf_len = 0; troubles = [] }

-- The code at `done`, where an array is freed if `ret` is below 0.
unfoldable pub end_with : Ret → Option (List Cell) → List Trouble → Outcome Backtrace
unfolding bt_frames_free
end_with (count n) cells messages =
    done (record { ret = count n; out = cells; messages = messages })
end_with ret cells messages =
    bt_frames_free cells >>= λ u. done (record { ret = ret; out = none; messages = messages })

-- The end of bt_frames_create after the loop, and after a `goto done`.
unfoldable pub end_frames : Bool × Frames → Outcome Backtrace
unfolding put_at as_int end_with
end_frames (true, f) = put_at f.backtrace_len null f.backtrace >>= λ cells.
    end_with (as_int f.backtrace_len) (some cells) f.troubles
end_frames (false, f) = end_with (failure (neg eio)) f.backtrace f.troubles

unfoldable pub bt_frames_create : UnwindAnswers → Outcome Backtrace
unfolding walk_frames end_frames
bt_frames_create a =
    if failed a.getcontext
    then done (record { ret = failure (neg eio); out = none; messages = getcontext_failed ∷ [] })
    else if failed a.init_local
    then done (record {
      ret = failure (neg eio);
      out = none;
      messages = init_local_failed a.init_local ∷ [];
    })
    else (walk_frames a a.stack no_frames >>= end_frames)
