-- ===== src/Backtrace/Unwind/Overrun.antt =====
-- What bt_frames_create of libunwind_backtrace.c does for a stack of named frames.
use lksmith.Base.{
  ℕ, zero, suc, ◌+◌, ◌%◌, ltb, ◌^◌, ◌<◌, ◌≡◌, refl, sym, ap, ◌∙◌, ◌⊎◌, inl, inr, true, false, List,
  [], ◌∷◌, ◌++◌, length, some, append-nil, arith, map, Outcome, done, fault, overrun, uninitialized,
  null_deref, ◌>>=◌,
}
use lksmith.Code.{ok, eio}
use lksmith.Lock.{Text}
use lksmith.Backtrace.Unwind.{
  UnwindAnswers, Trouble, Cell, garbage, null, garbage_cells, put_at, free_cells, bt_frames_free,
  Frames, make_room, name_frame, add_frame, walk_frames, Backtrace, end_frames, end_with, as_int,
  count, bt_frames_create, do_get_proc_fname, fname_rounds, not_found, buf_size, proc_name_failed,
  fname_failed,
}
use lksmith.Backtrace.Unwind.Cells.{strs, put-strs, put-full, free-strs, frames_of, slot, no_frames}
use lksmith.Backtrace.Unwind.Walk.{HasMemory, Snug, AllNamed, walk-start, names_of, placed}

as_int-small : (n : ℕ) → n < 2 ^ 31 → as_int n ≡ count n
unfolding as_int
as_int-small n small =
    let m : n % 2 ^ 32 ≡ n = omega arith in
    let q : ltb n (2 ^ 31) ≡ true = ground arith in rw (m, q) refl

end_frames-fits :
    (names : List Text) (m buf : ℕ) (ts : List Trouble)
    → length names < 2 ^ 31
    → end_frames (true, frames_of names (suc m) buf ts)
      ≡ done (record {
        ret = count (length names);
        out = some (strs names ++ null ∷ garbage_cells m);
        messages = ts;
      })
unfolding end_frames end_with put_at garbage_cells
end_frames-fits names m buf ts small =
    rw (put-strs names null garbage (garbage_cells m), as_int-small (length names) small) refl

end_frames-full :
    (names : List Text) (buf : ℕ) (ts : List Trouble)
    → end_frames (true, frames_of names 0 buf ts) ≡ fault overrun
unfolding end_frames put_at garbage_cells
end_frames-full names buf ts = rw (append-nil (strs names), put-full names null) refl

ended-free :
    (names : List Text) (cells : List Cell)
    → bt_frames_free (some (strs names ++ null ∷ cells)) ≡ done tt
unfolding bt_frames_free free_cells
ended-free names cells = free-strs names (null ∷ cells)

-- The array and what bt_frames_create returns for named frames: the names in order, a null pointer
-- and perhaps more places.
pub record Created (o : Outcome Backtrace) (names : List Text) : Type 0 where
  pub cells : List Cell
  pub messages : List Trouble
  pub run :
      o
      ≡ done (record {
        ret = count (length names);
        out = some (strs names ++ null ∷ cells);
        messages = messages;
      })
  pub freed : bt_frames_free (some (strs names ++ null ∷ cells)) ≡ done tt

created :
    (o : Outcome Backtrace) (names : List Text) (free buf : ℕ) (ts : List Trouble)
    → o ≡ end_frames (true, frames_of names free buf ts)
    → 0 < free
    → length names < 2 ^ 31
    → Created o names
created o names zero buf ts e l small = absurd (omega arith)
created o names (suc m) buf ts e l small = record {
  cells = garbage_cells m;
  messages = ts;
  run = e ∙ end_frames-fits names m buf ts small;
  freed = ended-free names (garbage_cells m);
}

module _ (a : UnwindAnswers) (name : ℕ → Text) (memory : HasMemory a) where
  walk_frames-end :
      (stack : List ℕ) (f g : Frames)
      → walk_frames a (stack ++ []) f ≡ walk_frames a [] g
      → walk_frames a stack f ≡ done (true, g)
  unfolding walk_frames
  walk_frames-end stack f g run = sym (ap (λ cs. walk_frames a cs f) (append-nil stack)) ∙ run

  bt_frames_create-ran :
      (stack : List ℕ) (f : Frames)
      → a.getcontext ≡ ok
      → a.init_local ≡ ok
      → a.stack ≡ stack
      → walk_frames a stack no_frames ≡ done (true, f)
      → bt_frames_create a ≡ end_frames (true, f)
  unfolding bt_frames_create
  bt_frames_create-ran stack f c i s run = rw (c, i, s, run, bt_frames_create) refl

  -- With memory, and names for all frames, of which there are fewer than 2^31: bt_frames_create of
  -- libunwind_backtrace.c writes through a null pointer if there is no frame; behind the array, if the
  -- number of frames is the capacity (32 doubled) that they need; and otherwise returns their number and
  -- their names with a null pointer behind them, which bt_frames_free frees.
  pub bt_frames_create-overrun :
      (stack : List ℕ)
      → a.getcontext ≡ ok
      → a.init_local ≡ ok
      → a.stack ≡ stack
      → AllNamed a name stack
      → length stack < 2 ^ 31
      → ((stack ≡ []) × (bt_frames_create a ≡ fault null_deref))
        ⊎ ((cap : ℕ) × Snug (length stack) cap
            × ((length stack ≡ cap → bt_frames_create a ≡ fault overrun)
                × (length stack < cap → Created (bt_frames_create a) (map name stack))))
  unfolding bt_frames_create walk_frames end_frames put_at
  bt_frames_create-overrun [] c i s has few = inl (refl, rw (c, i, s) refl)
  bt_frames_create-overrun (x ∷ xs) c i s has few =
      let (free, buf, ts, run, small, snug) = walk-start a name memory x xs [] has (omega arith) in
      let n : length (map name (x ∷ xs)) ≡ length (x ∷ xs) = names_of a name memory (x ∷ xs) in
      let whole : bt_frames_create a
          ≡ end_frames (true, frames_of (map name (x ∷ xs)) free buf ts) =
        bt_frames_create-ran (x ∷ xs) _ c i s (walk_frames-end (x ∷ xs) no_frames _ run) in
      inr (
        length (x ∷ xs) + free,
        rw n at snug,
        (
          λ e.
              let z : free ≡ 0 = omega arith in
              whole ∙ rw z (end_frames-full (map name (x ∷ xs)) buf ts),
          λ l. created _ (map name (x ∷ xs)) free buf ts whole (omega arith) (rw n few),
        ),
      )

  fname-unnamed :
      (c buf ret : ℕ)
      → ((n : ℕ) → a.get_proc_name c n ≡ not_found ret)
      → do_get_proc_fname fname_rounds a c buf ≡ done (inl eio, buf, proc_name_failed ret ∷ [])
  unfolding do_get_proc_fname buf_size
  fname-unnamed c buf ret fails = rw (fails (buf_size buf), do_get_proc_fname) refl

  name_frame-unnamed :
      (c m buf ret : ℕ) (names : List Text) (ts : List Trouble)
      → ((n : ℕ) → a.get_proc_name c n ≡ not_found ret)
      → name_frame a c (slot names m buf ts)
        ≡ done (false, slot names m buf (ts ++ proc_name_failed ret ∷ [] ++ fname_failed eio ∷ []))
  unfolding name_frame
  name_frame-unnamed c m buf ret names ts fails =
      rw (fname-unnamed c buf ret fails, name_frame) refl

  -- A frame without a name, in whose place nothing was written.
  unnamed-fault :
      (c m buf ret : ℕ) (rest : List ℕ) (names : List Text) (ts : List Trouble) (f : Frames)
      → make_room a f ≡ (true, slot names m buf ts)
      → ((n : ℕ) → a.get_proc_name c n ≡ not_found ret)
      → (walk_frames a (c ∷ rest) f >>= end_frames) ≡ fault uninitialized
  unfolding walk_frames add_frame end_frames end_with bt_frames_free free_cells
  unnamed-fault c m buf ret rest names ts f room fails =
      let added : add_frame a c (make_room a f) ≡ _ =
        ap (add_frame a c) room ∙ name_frame-unnamed c m buf ret names ts fails in
      rw (added, walk_frames, free-strs names (garbage ∷ garbage_cells m)) refl

  -- With memory, and names for the frames before: if libunwind finds no name for a frame, the clean-up
  -- of bt_frames_create reads a pointer that was never written, instead of returning -EIO.
  pub bt_frames_create-uninitialized :
      (stack rest : List ℕ) (c ret : ℕ)
      → a.getcontext ≡ ok
      → a.init_local ≡ ok
      → a.stack ≡ stack ++ c ∷ rest
      → AllNamed a name stack
      → length stack < 2 ^ 60
      → ((n : ℕ) → a.get_proc_name c n ≡ not_found ret)
      → bt_frames_create a ≡ fault uninitialized
  unfolding bt_frames_create
  bt_frames_create-uninitialized stack rest c ret g i s has few fails =
      let (f, names, buf, ts, run, (m, room, snug)) =
        placed a name memory stack (c ∷ rest) has few in
      rw (g, i, s, run, bt_frames_create) (unnamed-fault c m buf ret rest names ts f room fails)
