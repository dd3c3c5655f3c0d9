-- ===== src/Backtrace/Unwind/Cells.antt =====
-- Arrays of strings with places behind them.
use lksmith.Base.{
  ℕ, suc, ◌+◌, ◌-◌, ◌^◌, ◌<◌, ◌≡◌, refl, ap, ==_ne, true, false, List, [], ◌∷◌, ◌++◌, length, some,
  none, append-nil, arith, ltb, done, fault, overrun,
}
use lksmith.Lock.{Text}
use lksmith.Backtrace.Unwind.{
  UnwindAnswers, Trouble, Cell, garbage, str, garbage_cells, put, free_cells, Frames, new_cap,
  grown_cells, array_bytes, array_room, make_room,
}

abbrev pub strs : List Text → List Cell
strs [] = []
strs (name ∷ names) = str name ∷ strs names

pub strs-append :
    (names : List Text) (name : Text) (cells : List Cell)
    → strs names ++ str name ∷ cells ≡ strs (names ++ name ∷ []) ++ cells
strs-append [] name cells = refl
strs-append (n ∷ names) name cells = ap (◌∷◌ (str n)) (strs-append names name cells)

pub put-strs :
    (names : List Text) (c x : Cell) (cells : List Cell)
    → put (length names) c (strs names ++ x ∷ cells) ≡ done (strs names ++ c ∷ cells)
unfolding put
put-strs [] c x cells = refl
put-strs (n ∷ names) c x cells = rw (put-strs names c x cells) refl

pub put-full : (names : List Text) (c : Cell) → put (length names) c (strs names) ≡ fault overrun
unfolding put
put-full [] c = refl
put-full (n ∷ names) c = rw (put-full names c) refl

pub free-strs :
    (names : List Text) (cells : List Cell) → free_cells (strs names ++ cells) ≡ free_cells cells
unfolding free_cells
free-strs [] cells = refl
free-strs (n ∷ names) cells = free-strs names cells

-- The array with the names of some frames and free places, and the buffer and messages of before.
abbrev pub frames_of : List Text → ℕ → ℕ → List Trouble → Frames
frames_of names free buf ts = record {
  backtrace = some (strs names ++ garbage_cells free);
  backtrace_len = length names;
  cap = length names + free;
  heap_buf_len = buf;
  troubles = ts;
}

-- The same, with a place counted for the next frame.
abbrev pub slot : List Text → ℕ → ℕ → List Trouble → Frames
slot names free buf ts = record {
  backtrace = some (strs names ++ garbage ∷ garbage_cells free);
  backtrace_len = length names + 1;
  cap = length names + suc free;
  heap_buf_len = buf;
  troubles = ts;
}

abbrev pub no_frames : Frames
no_frames = record { backtrace = none; backtrace_len = 0; cap = 0; heap_buf_len = 0; troubles = [] }

room-full : (l n : ℕ) → l ≡ suc n → l < 2 ^ 60 → array_room (l + suc n) ≡ l + suc n
room-full l n e small = omega arith

new_cap-full : (l n : ℕ) → l ≡ suc n → l < 2 ^ 60 → new_cap (l + 0) ≡ l + suc n
unfolding new_cap
new_cap-full l n e small = rw (==_ne (l + 0) 0 (omega arith)) (omega arith)

grown_cells-full :
    (names : List Text) (n : ℕ)
    → length names ≡ suc n
    → grown_cells (some (strs names ++ garbage_cells 0)) (length names + 0) (length names + suc n)
      ≡ strs names ++ garbage ∷ garbage_cells n
unfolding grown_cells garbage_cells
grown_cells-full names n e =
    let d : (length names + suc n) - (length names + 0) ≡ suc n = omega arith in
    let q : ltb (length names + suc n) (length names + 0) ≡ false = ground arith in
    rw (q, d) (ap (λ cells. cells ++ garbage_cells (suc n)) (append-nil (strs names)))

module _ (a : UnwindAnswers) (memory : (n : ℕ) → a.realloc_frames n ≡ true) where
  pub make_room-first : make_room a no_frames ≡ (true, slot [] 31 0 [])
  unfolding make_room new_cap grown_cells garbage_cells
  make_room-first = rw (memory (array_bytes 32)) refl

  pub make_room-free :
      (names : List Text) (free buf : ℕ) (ts : List Trouble)
      → make_room a (frames_of names (suc free) buf ts) ≡ (true, slot names free buf ts)
  unfolding make_room garbage_cells
  make_room-free names free buf ts =
      let q : ltb (length names + suc free) (length names + 1) ≡ false = ground arith in
      rw (q, make_room) refl

  pub make_room-full :
      (names : List Text) (n buf : ℕ) (ts : List Trouble)
      → length names ≡ suc n
      → length names < 2 ^ 60
      → make_room a (frames_of names 0 buf ts) ≡ (true, slot names n buf ts)
  unfolding make_room
  make_room-full names n buf ts e small =
      let q : ltb (length names + 0) (length names + 1) ≡ true = ground arith in
      let c = new_cap-full (length names) n e small in
      rw
        (
          q,
          c,
          memory (array_bytes (length names + suc n)),
          room-full (length names) n e small,
          grown_cells-full names n e,
          make_room,
        )
        refl
