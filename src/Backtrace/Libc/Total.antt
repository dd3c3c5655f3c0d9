-- ===== src/Backtrace/Libc/Total.antt =====
-- On the loop of bt_frames_create in libc_backtrace.c.
use lksmith.Base.{
  take_all, length-take, ℕ, zero, suc, ◌*◌, ◌≤◌, ◌<◌, ◌≡◌, refl, sym, ap, ◌∙◌, ◌⊎◌, inl, inr, true,
  false, List, length, take, Option, none, some, Option-cases, Bool-cases, arith, dec_lt, done,
}
use lksmith.Lock.{Text}
use lksmith.Backtrace.Libc.{
  Scratch, LibcAnswers, try_backtrace, next_size, grow_scratch, fill_scratch, rounds, named,
  bt_frames_create,
}

-- `len` doubled `k` times is the largest size.
abbrev pub Doubles : ℕ → ℕ → Type 0
Doubles zero len = len ≡ 8192
Doubles (suc k) len = Doubles k (len * 2)

Doubles-bounds : (k len : ℕ) → Doubles k len → (0 < len) × (len ≤ 8192)
Doubles-bounds zero len d = (omega arith, omega arith)
Doubles-bounds (suc k) len d =
    let (p, q) = Doubles-bounds k (len * 2) d in (omega arith, omega arith)

-- Nothing, or one of the sizes 16 to 8192 that doubling reaches.
abbrev pub IsScratch : Scratch → Type 0
IsScratch s =
    ((s.allocated ≡ false) × (s.len ≡ 0))
    ⊎ ((s.allocated ≡ true) × (k : ℕ) × (k ≤ 9) × Doubles k s.len)

-- Why there is no backtrace: the stack is too deep, or the memory is gone.
abbrev pub Starved : LibcAnswers → List ℕ → Type 0
Starved a stack = (8192 ≤ length stack) ⊎ ((n : ℕ) × (n ≤ 8192) × (a.realloc n ≡ false))

module _ (a : LibcAnswers) (stack : List ℕ) (law : (n : ℕ) → a.backtrace n ≡ take n stack) where
  try_backtrace-fits :
      (s : Scratch) → s.allocated ≡ true → length stack < s.len → try_backtrace a s ≡ some stack
  unfolding try_backtrace
  try_backtrace-fits s h l = rw (h, law s.len, take_all s.len stack (omega arith)) (ground arith)

  try_backtrace-full :
      (s : Scratch) → s.allocated ≡ true → s.len ≤ length stack → try_backtrace a s ≡ none
  unfolding try_backtrace
  try_backtrace-full s h l = rw (h, law s.len, length-take s.len stack l) (ground arith)

  grow_scratch-last : (s : Scratch) → s.len ≡ 8192 → grow_scratch a s ≡ none
  unfolding grow_scratch next_size
  grow_scratch-last s e = rw e refl

  grow_scratch-cases :
      (k : ℕ) (s : Scratch)
      → Doubles (suc k) s.len
      → ((grow_scratch a s ≡ none) × (a.realloc (s.len * 2) ≡ false))
        ⊎ (grow_scratch a s ≡ some (record { allocated = true; len = s.len * 2 }))
  unfolding grow_scratch next_size
  grow_scratch-cases k s d =
      let (p, q) = Doubles-bounds k (s.len * 2) d in
      elim (Bool-cases (a.realloc (s.len * 2))) [
        | inl e ↦ inr (ground arith)
        | inr e ↦ inl (ground arith, e)
      ]

  abbrev pub Complete : Option (List ℕ) → Scratch → Type 0
  Complete none s' = Starved a stack
  Complete (some frames) s' = (frames ≡ stack) × (length stack < s'.len)

  abbrev pub Filled : Scratch → Option (List ℕ) → Scratch → Type 0
  Filled s r s' = IsScratch s' × (s.len ≤ s'.len) × Complete r s'

  abbrev Fills : ℕ → Scratch → Type 0
  Fills fuel s =
      (r : Option (List ℕ)) × (s' : Scratch) × (fill_scratch fuel a s ≡ done (r, s'))
      × Filled s r s'

  fill_scratch-fits :
      (k fuel : ℕ) (s : Scratch)
      → s.allocated ≡ true
      → k ≤ 9
      → Doubles k s.len
      → length stack < s.len
      → Fills (suc fuel) s
  unfolding fill_scratch
  fill_scratch-fits k fuel s h small d l = (
    some stack,
    s,
    rw (try_backtrace-fits s h l, fill_scratch) refl,
    (inr (h, k, small, d), omega arith, (refl, l)),
  )

  fill_scratch-starved :
      (fuel : ℕ) (s : Scratch)
      → try_backtrace a s ≡ none
      → grow_scratch a s ≡ none
      → fill_scratch (suc fuel) a s ≡ done (none, s)
  unfolding fill_scratch
  fill_scratch-starved fuel s e g = rw (e, g, fill_scratch) refl

  fill_scratch-grown :
      (fuel : ℕ) (s s2 : Scratch)
      → try_backtrace a s ≡ none
      → grow_scratch a s ≡ some s2
      → s.len ≤ s2.len
      → Fills fuel s2
      → Fills (suc fuel) s
  unfolding fill_scratch
  fill_scratch-grown fuel s s2 e g l (none, s', run, (w, m, c)) =
      (none, s', rw (e, g, fill_scratch) run, (w, omega arith, c))
  fill_scratch-grown fuel s s2 e g l (some frames, s', run, (w, m, c)) =
      (some frames, s', rw (e, g, fill_scratch) run, (w, omega arith, c))

  fill_scratch-allocated :
      (k fuel : ℕ) (s : Scratch)
      → s.allocated ≡ true
      → k ≤ 9
      → k < fuel
      → Doubles k s.len
      → Fills fuel s
  fill_scratch-allocated k zero s h small enough d = absurd (omega arith)
  fill_scratch-allocated zero (suc fuel) s h small enough d = elim (dec_lt (length stack) s.len) [
    | yes l ↦ fill_scratch-fits 0 fuel s h small d l
    | no l ↦
        let full = try_backtrace-full s h (omega arith) in
        (
          none,
          s,
          fill_scratch-starved fuel s full (grow_scratch-last s d),
          (inr (h, 0, small, d), omega arith, inl (omega arith)),
        )
  ]
  fill_scratch-allocated (suc k) (suc fuel) s h small enough d =
      elim (dec_lt (length stack) s.len) [
        | yes l ↦ fill_scratch-fits (suc k) fuel s h small d l
        | no l ↦
            let full = try_backtrace-full s h (omega arith) in
            let (p, q) = Doubles-bounds k (s.len * 2) d in
            elim (grow_scratch-cases k s d) [
              | inl (g, refused) ↦ (
                none,
                s,
                fill_scratch-starved fuel s full g,
                (inr (h, suc k, small, d), omega arith, inr (s.len * 2, q, refused)),
              )
              | inr g ↦ fill_scratch-grown fuel s _ full g (omega arith) (
                  fill_scratch-allocated k fuel (record { allocated = true; len = s.len * 2 }) refl
                    (omega arith) (omega arith) d)
            ]
      ]

  fill_scratch-empty : (s : Scratch) → s.allocated ≡ false → s.len ≡ 0 → Fills rounds s
  unfolding try_backtrace grow_scratch next_size
  fill_scratch-empty s h z = elim (Bool-cases (a.realloc 16)) [
    | inl e ↦
        fill_scratch-grown 10 s (record { allocated = true; len = 16 }) (rw h refl) (rw (z, e) refl)
          (omega arith)
          (fill_scratch-allocated 9 10 (record { allocated = true; len = 16 }) refl (omega arith)
            (omega arith) refl)
    | inr e ↦ (
      none,
      s,
      fill_scratch-starved 10 s (rw h refl) (rw (z, e) refl),
      (inl (h, z), omega arith, inr (16, omega arith, e)),
    )
  ]

  -- Whatever the depth of the stack and the memory left, from any scratch area of an earlier call the
  -- loop ends, with an area that is not smaller, and either all addresses of the stack, which leave at
  -- least one place of the area free, or none, for which there are at least 8192 of them, or realloc
  -- refused an area of at most 8192.
  fill_scratch_lem :
      (s : Scratch)
      → IsScratch s
      → (r : Option (List ℕ)) × (s' : Scratch) × (fill_scratch rounds a s ≡ done (r, s'))
        × Filled s r s'
  fill_scratch_lem s (inl (h, z)) = fill_scratch-empty s h z
  fill_scratch_lem s (inr (h, k, small, d)) =
      fill_scratch-allocated k rounds s h small (omega arith) d

  -- What the caller gets: all frames of the stack by name, or the reason for -ENOMEM.
  abbrev pub Named : Option (ℕ × List Text) → Scratch → Type 0
  Named none s' = Starved a stack ⊎ (a.backtrace_symbols stack ≡ none)
  Named (some (num, symbols)) s' =
      (num ≡ length stack) × (num < s'.len) × (a.backtrace_symbols stack ≡ some symbols)

  named-Named : (r : Option (List ℕ)) (s' : Scratch) → Complete r s' → Named (named a (r, s')).0 s'
  unfolding named
  named-Named none s' starved = inl starved
  named-Named (some frames) s' (e, l) = by_symbols (a.backtrace_symbols frames) refl
    where
      by_symbols :
          (o : Option (List Text))
          → a.backtrace_symbols frames ≡ o
          → Named (named a (some frames, s')).0 s'
      by_symbols none q = rw (q, named) (inr (sym (ap a.backtrace_symbols e) ∙ q))
      by_symbols (some symbols) q =
          rw (q, named) (ap length e, rw e l, sym (ap a.backtrace_symbols e) ∙ q)

  named-scratch : (r : Option (List ℕ)) (s' : Scratch) → (named a (r, s')).1 ≡ s'
  unfolding named
  named-scratch none s' = refl
  named-scratch (some frames) s' = elim (Option-cases (a.backtrace_symbols frames)) [
    | inl q ↦ rw (q, named) refl
    | inr (symbols, q) ↦ rw (q, named) refl
  ]

  -- With the documented backtrace(3), bt_frames_create of libc_backtrace.c returns from any scratch
  -- area of an earlier call and for any depth of the stack: the frames of the whole stack by name,
  -- and fewer of them than the area has places; or -ENOMEM, and then the stack is at least 8192 deep,
  -- realloc refused an area of at most 8192 places, or backtrace_symbols had no memory. The area stays
  -- one of the sizes that doubling reaches, and never shrinks.
  pub bt_frames_create_lem :
      (s : Scratch)
      → IsScratch s
      → (r : Option (ℕ × List Text)) × (s' : Scratch) × (bt_frames_create a s ≡ done (r, s'))
        × IsScratch s'
        × (s.len ≤ s'.len)
        × Named r s'
  unfolding bt_frames_create
  bt_frames_create_lem s w =
      let (r, s', run, (w', l, c)) = fill_scratch_lem s w in
      (
        (named a (r, s')).0,
        s',
        rw run (ap (λ x. done ((named a (r, s')).0, x)) (named-scratch r s')),
        w',
        l,
        named-Named r s' c,
      )
