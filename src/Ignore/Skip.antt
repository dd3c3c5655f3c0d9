-- ===== src/Ignore/Skip.antt =====
-- Which calls skip the order check.
use lksmith.Base.{
  ℕ, ◌≡◌, refl, ap, subst, ◌↔◌, ◌⊎◌, inl, inr, true, List, [], ◌∷◌, Option, none, some, arith,
  length, Bool-cases,
}
use lksmith.Code.{ok, err, enomem}
use lksmith.Lock.{Text}
use lksmith.Ignore.Texts.{InText, IsSorted}
use lksmith.Ignore.{
  TextLib, IgnoreMemory, copies, lksmith_init_ignored, matches_any,
  should_skip_dependency_processing,
}
use lksmith.Ignore.Tokens.{tokens, init_ignored-tokens, copies-total}

-- The strings that an environment variable lists, none if it is not set.
abbrev pub listed : Option Text → List Text
listed none = []
listed (some env) = tokens [] env

module _ (C : TextLib) where
  -- Some pattern of the list matches the frame.
  abbrev pub Matched : List Text → Text → Type 0
  Matched [] frame = ⊥
  Matched (p ∷ patterns) frame = (C.fnmatch p frame ≡ true) ⊎ Matched patterns frame

  -- Some frame is listed, or matched by a pattern.
  abbrev pub Skipped : List Text → List Text → List Text → Type 0
  Skipped ignored patterns [] = ⊥
  Skipped ignored patterns (frame ∷ frames) =
      (InText frame ignored ⊎ Matched patterns frame) ⊎ Skipped ignored patterns frames

  matches_any_iff :
      (patterns : List Text) (frame : Text)
      → (matches_any C patterns frame ≡ true) ↔ Matched patterns frame
  unfolding matches_any
  matches_any_iff [] frame = ground arith
  matches_any_iff (p ∷ patterns) frame = ground (arith, matches_any_iff patterns frame)

  skip_iff :
      (ignored patterns frames : List Text)
      → IsSorted ignored
      → (should_skip_dependency_processing C ignored patterns frames ≡ true)
        ↔ Skipped ignored patterns frames
  unfolding should_skip_dependency_processing
  skip_iff ignored patterns [] s = ground arith
  skip_iff ignored patterns (frame ∷ frames) s = ground (
    arith,
    C.bsearch_iff frame ignored s,
    matches_any_iff patterns frame,
    skip_iff ignored patterns frames s,
  )

  Skipped-same :
      (ignored other patterns frames : List Text)
      → ((t : Text) → InText t ignored → InText t other)
      → Skipped ignored patterns frames
      → Skipped other patterns frames
  Skipped-same ignored other patterns [] same s = s
  Skipped-same ignored other patterns (frame ∷ frames) same (inl (inl m)) = inl (inl (same frame m))
  Skipped-same ignored other patterns (frame ∷ frames) same (inl (inr p)) = inl (inr p)
  Skipped-same ignored other patterns (frame ∷ frames) same (inr s) =
      inr (Skipped-same ignored other patterns frames same s)

  Matched-same :
      (patterns others : List Text) (frame : Text)
      → ((t : Text) → InText t patterns → InText t others)
      → Matched patterns frame
      → Matched others frame
  Matched-same [] others frame same m = absurd m
  Matched-same (p ∷ patterns) others frame same (inl e) = there others (same p (inl refl))
    where
      there : (ts : List Text) → InText p ts → Matched ts frame
      there [] m = absurd m
      there (t ∷ ts) (inl q) = inl (rw (← q) e)
      there (t ∷ ts) (inr m) = inr (there ts m)
  Matched-same (p ∷ patterns) others frame same (inr m) =
      Matched-same patterns others frame (λ t k. same t (inr k)) m

  Skipped-patterns :
      (ignored patterns others frames : List Text)
      → ((t : Text) → InText t patterns → InText t others)
      → Skipped ignored patterns frames
      → Skipped ignored others frames
  Skipped-patterns ignored patterns others [] same s = s
  Skipped-patterns ignored patterns others (frame ∷ frames) same (inl (inl m)) = inl (inl m)
  Skipped-patterns ignored patterns others (frame ∷ frames) same (inl (inr p)) =
      inl (inr (Matched-same patterns others frame same p))
  Skipped-patterns ignored patterns others (frame ∷ frames) same (inr s) =
      inr (Skipped-patterns ignored patterns others frames same s)

  -- lksmith_init_ignored returns 0 with the listed strings, sorted and as many, or ENOMEM with
  -- nothing; and it returns 0 whenever there is memory.
  pub lksmith_init_ignored_lem :
      (mem : IgnoreMemory) (env : Option Text)
      → let (code, ts) = lksmith_init_ignored C mem env in
        ((code ≡ ok)
            × IsSorted ts
            × (length ts ≡ length (listed env))
            × ((t : Text) → InText t ts ↔ InText t (listed env))
          ⊎ (code ≡ err enomem) × (ts ≡ []))
        × (mem.env_copy ≡ true
            → ((n : ℕ) → mem.array n ≡ true)
            → ((i : ℕ) → mem.copy i ≡ true)
            → code ≡ ok)
  unfolding lksmith_init_ignored
  lksmith_init_ignored_lem mem none = (inl (refl, tt, refl, λ t. (λ m. m, λ m. m)), λ a b c. refl)
  lksmith_init_ignored_lem mem (some env) =
      rw (init_ignored-tokens C mem env) (elim (Bool-cases mem.env_copy) [
        | inr f ↦ rw f (inr (refl, refl), λ a b c. cc)
        | inl t ↦ rw t (elim (Bool-cases (mem.array (length (tokens [] env)))) [
          | inr f ↦ rw f (inr (refl, refl), λ a b c. cc (f, b (length (tokens [] env))))
          | inl u ↦ rw u (elim (Bool-cases (copies mem.copy 0 (tokens [] env))) [
            | inr f ↦
                rw f
                  (inr (refl, refl), λ a b c. cc (f, copies-total C mem.copy 0 (tokens [] env) c))
            | inl v ↦ rw v (
              inl (
                refl,
                C.qsort-IsSorted (tokens [] env),
                C.length-qsort (tokens [] env),
                λ t. C.in_qsort t (tokens [] env),
              ),
              λ a b c. refl,
            )
          ])
        ])
      ])

  -- With the lists that lksmith_init_ignored made of the two environment variables, the order check is
  -- skipped exactly if some frame of the backtrace is listed in the first or matches a pattern listed
  -- in the second.
  pub should_skip_iff :
      (mem mem' : IgnoreMemory) (env env' : Option Text) (ignored patterns frames : List Text)
      → lksmith_init_ignored C mem env ≡ (ok, ignored)
      → lksmith_init_ignored C mem' env' ≡ (ok, patterns)
      → (should_skip_dependency_processing C ignored patterns frames ≡ true)
        ↔ Skipped (listed env) (listed env') frames
  should_skip_iff mem mem' env env' ignored patterns frames e e' =
      let (s, same) = made mem env ignored e in
      let (_, same') = made mem' env' patterns e' in
      let (there, back) = skip_iff ignored patterns frames s in
      (
        λ h.
            Skipped-patterns (listed env) patterns (listed env') frames (λ t. (same' t).0)
              (Skipped-same ignored (listed env) patterns frames (λ t. (same t).0) (there h)),
        λ h. back (
            Skipped-patterns ignored (listed env') patterns frames (λ t. (same' t).1)
              (Skipped-same (listed env) ignored (listed env') frames (λ t. (same t).1) h)),
      )
    where
      made :
          (mem : IgnoreMemory) (env : Option Text) (ts : List Text)
          → lksmith_init_ignored C mem env ≡ (ok, ts)
          → IsSorted ts × ((t : Text) → InText t ts ↔ InText t (listed env))
      made mem env ts e = pick (lksmith_init_ignored_lem mem env).0
        where
          pick :
              ((lksmith_init_ignored C mem env).0 ≡ ok)
                  × IsSorted (lksmith_init_ignored C mem env).1
                  × (length (lksmith_init_ignored C mem env).1 ≡ length (listed env))
                  × ((t : Text)
                      → InText t (lksmith_init_ignored C mem env).1 ↔ InText t (listed env))
                ⊎ ((lksmith_init_ignored C mem env).0 ≡ err enomem)
                  × ((lksmith_init_ignored C mem env).1 ≡ [])
              → IsSorted ts × ((t : Text) → InText t ts ↔ InText t (listed env))
          pick (inl (_, s, _, m)) =
              let q = ap (λ r. r.1) e in
              subst (λ us. IsSorted us × ((t : Text) → InText t us ↔ InText t (listed env))) q
                (s, m)
          pick (inr (f, _)) = let q = ap (λ r. r.0) e in cc (f, q)
