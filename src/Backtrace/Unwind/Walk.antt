-- ===== src/Backtrace/Unwind/Walk.antt =====
-- The loop of bt_frames_create of libunwind_backtrace.c over frames that have names.
use lksmith.Base.{
  ℕ, zero, suc, ◌+◌, ◌-◌, ◌*◌, ◌^◌, ◌≤◌, ◌<◌, ◌≡◌, refl, ap, ◌∙◌, ◌⊎◌, inl, inr, true, List, [],
  ◌∷◌, ◌++◌, length, some, length-append, append-nil, append_assoc, arith, map, done,
}
use lksmith.Lock.{Text}
use lksmith.Backtrace.Unwind.{
  UnwindAnswers, Trouble, garbage, str, garbage_cells, put_at, Frames, make_room, name_frame,
  add_frame, walk_frames, do_get_proc_fname, fname_rounds,
}
use lksmith.Backtrace.Unwind.Names.{HasName, Reads, do_get_proc_fname_lem}
use lksmith.Backtrace.Unwind.Cells.{
  strs, strs-append, put-strs, frames_of, slot, no_frames, make_room-first, make_room-free,
  make_room-full,
}

-- realloc and strdup never refuse.
pub record HasMemory (a : UnwindAnswers) : Type 0 where
  pub frames : (n : ℕ) → a.realloc_frames n ≡ true
  pub buf : (n : ℕ) → a.realloc_buf n ≡ true
  pub copy : (c : ℕ) → a.strdup c ≡ true

-- The lengths of the array.
pub data Capacity : ℕ → Type 0 where
  base : Capacity 32
  twice : {c : ℕ} → Capacity c → Capacity (c * 2)

-- The least capacity for `n` frames.
pub record Snug (n cap : ℕ) : Type 0 where
  pub capacity : Capacity cap
  pub enough : n ≤ cap
  pub least : (cap ≡ 32) ⊎ (cap < n * 2)

module _ (a : UnwindAnswers) (name : ℕ → Text) where
  abbrev pub AllNamed : List ℕ → Type 0
  AllNamed [] = Unit
  AllNamed (c ∷ cs) = HasName a c (name c) × AllNamed cs

module _ (a : UnwindAnswers) (name : ℕ → Text) (memory : HasMemory a) where
  named_slot :
      (names : List Text) (nm : Text) (m buf : ℕ) (ts : List Trouble)
      → record {
        backtrace = some (strs names ++ str nm ∷ garbage_cells m);
        backtrace_len = length names + 1;
        cap = length names + suc m;
        heap_buf_len = buf;
        troubles = ts;
      }
        ≡ frames_of (names ++ nm ∷ []) m buf ts
  named_slot names nm m buf ts =
      let l = length-append names (nm ∷ []) in
      let c : length names + suc m ≡ length (names ++ nm ∷ []) + m = omega (arith, l) in
      rw (strs-append names nm (garbage_cells m), c, l) refl

  -- With memory the name is found.
  read_named :
      (c len : ℕ)
      → Reads a c (name c) fname_rounds len
      → (buf : ℕ) × (ts : List Trouble) × (do_get_proc_fname fname_rounds a c len
          ≡ done (inr (name c), buf, ts))
        × (buf < 2 ^ 63)
  read_named c len (inl e, buf, ts, run, le, small, (code, inl (n, refused))) =
      absurd (let k = memory.buf n in cc (k, refused))
  read_named c len (inl e, buf, ts, run, le, small, (code, inr refused)) =
      absurd (let k = memory.copy c in cc (k, refused))
  read_named c len (inr t, buf, ts, run, le, small, got) = (buf, ts, rw got at run, small)

  name_frame-named :
      (c m buf : ℕ) (names : List Text) (ts : List Trouble)
      → HasName a c (name c)
      → buf < 2 ^ 63
      → (buf' : ℕ) × (ts' : List Trouble) × (name_frame a c (slot names m buf ts)
          ≡ done (true, frames_of (names ++ name c ∷ []) m buf' ts'))
        × (buf' < 2 ^ 63)
  unfolding name_frame put_at
  name_frame-named c m buf names ts has small =
      let (buf', ts', run, small') =
        read_named c buf (do_get_proc_fname_lem a c (name c) has buf small) in
      let i : length names + 1 - 1 ≡ length names = omega arith in
      let p = put-strs names (str (name c)) garbage (garbage_cells m) in
      (
        buf',
        ts ++ ts',
        rw (run, i, p, name_frame)
            (ap (λ f. done (true, f)) (named_slot names (name c) m buf' (ts ++ ts'))),
        small',
      )

  abbrev pub Walks : List ℕ → List ℕ → Frames → List Text → Type 0
  Walks stack rest f names =
      (free : ℕ) × (buf : ℕ) × (ts : List Trouble) × (walk_frames a (stack ++ rest) f
        ≡ walk_frames a rest (frames_of names free buf ts))
      × (buf < 2 ^ 63)
      × Snug (length names) (length names + free)

  -- One frame, once there is a place for it.
  walk-slot :
      (c m buf : ℕ) (rest : List ℕ) (names : List Text) (ts : List Trouble) (f : Frames)
      → HasName a c (name c)
      → buf < 2 ^ 63
      → make_room a f ≡ (true, slot names m buf ts)
      → Snug (length names + 1) (length names + suc m)
      → Walks (c ∷ []) rest f (names ++ name c ∷ [])
  unfolding walk_frames add_frame
  walk-slot c m buf rest names ts f has small room snug =
      let (buf', ts', run, small') = name_frame-named c m buf names ts has small in
      let l = length-append names (name c ∷ []) in
      let k : length (names ++ name c ∷ []) + m ≡ length names + suc m = omega (arith, l) in
      let added : add_frame a c (make_room a f) ≡ _ = ap (add_frame a c) room ∙ run in
      (m, buf', ts', rw (added, walk_frames) refl, small', rw (k, l) snug)

  -- A place for one more frame.
  abbrev pub Placed : Frames → List Text → ℕ → List Trouble → Type 0
  Placed f names buf ts =
      (m : ℕ) × (make_room a f ≡ (true, slot names m buf ts))
      × Snug (length names + 1) (length names + suc m)

  place :
      (free buf : ℕ) (names : List Text) (ts : List Trouble)
      → 0 < length names
      → length names < 2 ^ 60
      → Snug (length names) (length names + free)
      → Placed (frames_of names free buf ts) names buf ts
  place (suc m) buf names ts some_names few snug = (
    m,
    make_room-free a memory.frames names m buf ts,
    record {
      capacity = snug.capacity;
      enough = omega arith;
      least = elim snug.least [ inl e ↦ inl (omega arith) | inr l ↦ inr (omega arith) ];
    },
  )
  place zero buf names ts some_names few snug =
      let n = length names - 1 in
      let l : length names ≡ suc n = omega arith in
      let full : length names + 0 ≡ length names = omega arith in
      let double : length names * 2 ≡ length names + suc n = omega arith in
      (
        n,
        make_room-full a memory.frames names n buf ts l few,
        record {
          capacity = rw double at (twice (rw full at snug.capacity));
          enough = omega arith;
          least = inr (omega arith);
        },
      )

  walk-all :
      (cs : List ℕ) (free buf : ℕ) (rest : List ℕ) (names : List Text) (ts : List Trouble)
      → AllNamed a name cs
      → buf < 2 ^ 63
      → 0 < length names
      → length names + length cs < 2 ^ 60
      → Snug (length names) (length names + free)
      → Walks cs rest (frames_of names free buf ts) (names ++ map name cs)
  walk-all [] free buf rest names ts has small some_names few snug =
      (free, buf, ts, rw (append-nil names) refl, small, rw (append-nil names) snug)
  walk-all (c ∷ cs) free buf rest names ts has small some_names few snug =
      let (m, room, tight) = place free buf names ts some_names (omega arith) snug in
      let (free2, buf2, ts2, run2, small2, snug2) =
        walk-slot c m buf (cs ++ rest) names ts _ has.0 small room tight in
      let l = length-append names (name c ∷ []) in
      let (free3, buf3, ts3, run3, small3, snug3) =
        walk-all cs free2 buf2 rest (names ++ name c ∷ []) ts2 has.1 small2 (omega arith)
          (omega arith) snug2 in
      let e = append_assoc names (name c ∷ []) (map name cs) in
      (free3, buf3, ts3, run2 ∙ rw e at run3, small3, rw e at snug3)

  pub walk-start :
      (c : ℕ) (cs rest : List ℕ)
      → AllNamed a name (c ∷ cs)
      → length (c ∷ cs) < 2 ^ 60
      → Walks (c ∷ cs) rest no_frames (map name (c ∷ cs))
  walk-start c cs rest has few =
      let (free, buf, ts, run, small, snug) =
        walk-slot c 31 0 (cs ++ rest) [] [] no_frames has.0 (omega arith)
          (make_room-first a memory.frames)
          (record { capacity = base; enough = omega arith; least = inl refl }) in
      let (free2, buf2, ts2, run2, small2, snug2) =
        walk-all cs free buf rest (name c ∷ []) ts has.1 small (omega arith) (omega arith) snug in
      (free2, buf2, ts2, run ∙ run2, small2, snug2)

  pub names_of : (stack : List ℕ) → length (map name stack) ≡ length stack
  names_of [] = refl
  names_of (c ∷ cs) = ap suc (names_of cs)

  pub placed :
      (stack : List ℕ) (rest : List ℕ)
      → AllNamed a name stack
      → length stack < 2 ^ 60
      → (f : Frames) × (names : List Text) × (buf : ℕ) × (ts : List Trouble) × (walk_frames a
            (stack ++ rest)
            no_frames
          ≡ walk_frames a rest f)
        × Placed f names buf ts
  placed [] rest has few = (
    no_frames,
    [],
    0,
    [],
    refl,
    (
      31,
      make_room-first a memory.frames,
      record { capacity = base; enough = omega arith; least = inl refl },
    ),
  )
  placed (x ∷ xs) rest has few =
      let (free, buf, ts, run, small, snug) = walk-start x xs rest has few in
      let n = names_of (x ∷ xs) in
      (
        _,
        map name (x ∷ xs),
        buf,
        ts,
        run,
        place free buf (map name (x ∷ xs)) ts (omega arith) (omega arith) snug,
      )
