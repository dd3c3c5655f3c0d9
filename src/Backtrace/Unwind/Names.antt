-- ===== src/Backtrace/Unwind/Names.antt =====
-- On the loop of do_get_proc_fname.
use lksmith.Base.{
  ℕ, zero, suc, ◌*◌, ◌^◌, ◌≤◌, ◌<◌, ◌≡◌, refl, ◌⊎◌, inl, inr, false, List, [], ◌∷◌, length,
  Bool-cases, arith, ==_ne, dec_lt, ltb, if◌then◌else◌, done,
}
use lksmith.Code.{Errno, enomem}
use lksmith.Lock.{Text}
use lksmith.Backtrace.Unwind.{
  UnwindAnswers, found, no_room, Trouble, no_name_copy, no_name_buffer, buf_size, next_len,
  fname_copy, do_get_proc_fname, fname_rounds,
}

-- unw_get_proc_name as documented, for a frame that has a name: -UNW_ENOMEM if the name and its NUL do
-- not fit.
abbrev pub HasName : UnwindAnswers → ℕ → Text → Type 0
HasName a cursor name =
    (length name < 2 ^ 62)
    × ((n : ℕ) → a.get_proc_name cursor n ≡ (if ltb (length name) n then found name else no_room))

-- `k` doublings of `len` reach 2^62.
abbrev Reaches : ℕ → ℕ → Type 0
Reaches zero len = 2 ^ 62 ≤ len
Reaches (suc k) len = Reaches k (len * 2)

Reaches-le : (k m n : ℕ) → m ≤ n → Reaches k m → Reaches k n
Reaches-le zero m n l r = omega arith
Reaches-le (suc k) m n l r = Reaches-le k (m * 2) (n * 2) (omega arith) r

-- Without an answer of libunwind that is an error, only memory can be missing.
abbrev pub Got : UnwindAnswers → ℕ → Text → Errno ⊎ Text → Type 0
Got a cursor name (inr t) = t ≡ name
Got a cursor name (inl e) =
    (e ≡ enomem) × (((n : ℕ) × (a.realloc_buf n ≡ false)) ⊎ (a.strdup cursor ≡ false))

module _ (a : UnwindAnswers) (cursor : ℕ) (name : Text) where
  abbrev pub Reads : ℕ → ℕ → Type 0
  Reads fuel len =
      (r : Errno ⊎ Text) × (len' : ℕ) × (ts : List Trouble) × (do_get_proc_fname fuel a cursor len
        ≡ done (r, len', ts))
      × (len ≤ len')
      × (len' < 2 ^ 63)
      × Got a cursor name r

module _ (a : UnwindAnswers) (cursor : ℕ) (name : Text) (has : HasName a cursor name) where
  answer-found : (n : ℕ) → length name < n → a.get_proc_name cursor n ≡ found name
  answer-found n l = rw (has.1 n) (ground arith)

  answer-no_room : (n : ℕ) → n ≤ length name → a.get_proc_name cursor n ≡ no_room
  answer-no_room n l = rw (has.1 n) (ground arith)

  fname-fits :
      (fuel len : ℕ)
      → length name < buf_size len
      → len < 2 ^ 63
      → Reads a cursor name (suc fuel) len
  unfolding do_get_proc_fname fname_copy
  fname-fits fuel len l small =
      let q = answer-found (buf_size len) l in
      elim (Bool-cases (a.strdup cursor)) [
        | inl e ↦ (inr name, len, [], rw (q, e, do_get_proc_fname) refl, omega arith, small, refl)
        | inr e ↦ (
          inl enomem,
          len,
          no_name_copy ∷ [],
          rw (q, e, do_get_proc_fname) refl,
          omega arith,
          small,
          (refl, inr e),
        )
      ]

  fname-full :
      (fuel len : ℕ)
      → buf_size len ≤ length name
      → len < 2 ^ 63
      → len < next_len len
      → Reads a cursor name fuel (next_len len)
      → Reads a cursor name (suc fuel) len
  unfolding do_get_proc_fname
  fname-full fuel len l small more (r, len', ts, run, le, bound, got) =
      let q = answer-no_room (buf_size len) l in
      elim (Bool-cases (a.realloc_buf (next_len len))) [
        | inl e ↦ (r, len', ts, rw (q, e, do_get_proc_fname) run, omega arith, bound, got)
        | inr e ↦ (
          inl enomem,
          len,
          no_name_buffer (next_len len) ∷ [],
          rw (q, e, do_get_proc_fname) refl,
          omega arith,
          small,
          (refl, inl (next_len len, e)),
        )
      ]

  buf_size-pos : (len : ℕ) → 0 < len → buf_size len ≡ len
  unfolding buf_size
  buf_size-pos len p = ground arith

  next_len-pos : (len : ℕ) → 0 < len → len < 2 ^ 63 → next_len len ≡ len * 2
  unfolding next_len
  next_len-pos len p small = rw (==_ne len 0 (omega arith)) (omega arith)

  fname_grows :
      (k fuel len : ℕ)
      → 0 < len
      → len < 2 ^ 63
      → k < fuel
      → Reaches k len
      → Reads a cursor name fuel len
  fname_grows k zero len p small enough r = absurd (omega arith)
  fname_grows zero (suc fuel) len p small enough r =
      fname-fits fuel len (omega (arith, buf_size-pos len p, has.0)) small
  fname_grows (suc k) (suc fuel) len p small enough r =
      let b = buf_size-pos len p in
      let n = next_len-pos len p small in
      elim (dec_lt (length name) len) [
        | yes l ↦ fname-fits fuel len (omega arith) small
        | no l ↦
            let h = has.0 in
            fname-full fuel len (omega arith) small (omega arith)
              (rw n (fname_grows k fuel (len * 2) (omega arith) (omega arith) (omega arith) r))
      ]

  -- If the frame has a name shorter than 2^62, do_get_proc_fname returns from any buffer of an earlier
  -- call: the name, whatever its length; or an error, which is ENOMEM, and then realloc or strdup
  -- refused memory. The buffer does not shrink.
  pub do_get_proc_fname_lem : (len : ℕ) → len < 2 ^ 63 → Reads a cursor name fname_rounds len
  unfolding buf_size next_len
  do_get_proc_fname_lem zero small = elim (dec_lt (length name) 512) [
    | yes l ↦ fname-fits 63 0 l small
    | no l ↦ fname-full 63 0 (omega arith) small (omega arith) (
        fname_grows 62 63 1024 (omega arith) (omega arith) (omega arith)
          (Reaches-le 62 1 1024 (omega arith) (omega arith)))
  ]
  do_get_proc_fname_lem (suc n) small =
      fname_grows 62 64 (suc n) (omega arith) small (omega arith)
        (Reaches-le 62 1 (suc n) (omega arith) (omega arith))
