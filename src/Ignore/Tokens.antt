-- ===== src/Ignore/Tokens.antt =====
-- The syntax of the two environment variables: strings with colons between them, read by
-- lksmith_init_ignored in two passes over one buffer.
use lksmith.Base.{
  ℕ, zero, suc, ◌+◌, ◌≡◌, ◌≢◌, refl, ap, ◌∙◌, sym, List, [], ◌∷◌, ◌++◌, append-nil, append_assoc,
  ==_ne, ◌==◌, Bool, true, not, some, Bool-cases, inl, inr, drop, length, length-append, arith,
  if◌then◌else◌,
}
use lksmith.Code.{ok, err, enomem}
use lksmith.Lock.{Text}
use lksmith.Ignore.{
  TextLib, IgnoreMemory, token, strtok_loop, stored, strcpy, passes, copies, init_listed,
  lksmith_init_ignored,
}

-- The strings between the colons of a value, without empty ones.
unfoldable pub tokens : Text → Text → List Text
unfolding token
tokens read [] = token read []
tokens read (c ∷ s) =
    let skipped = tokens [] s in
    let others = tokens (read ++ c ∷ []) s in
    if c == 0 then token read [] else (if c == 58 then token read skipped else others)

strtok_loop-tokens : (read s : Text) → (strtok_loop read (stored s)).0 ≡ tokens read s
unfolding strtok_loop tokens
strtok_loop-tokens read [] = refl
strtok_loop-tokens read (c ∷ s) = elim (Bool-cases (c == 0)) [
  | inl z ↦ rw (z, strtok_loop, tokens) refl
  | inr z ↦ elim (Bool-cases (c == 58)) [
    | inl e ↦ rw (z, e, strtok_loop, tokens) (ap (token read) (strtok_loop-tokens [] s))
    | inr e ↦ rw (z, e, strtok_loop, tokens) (strtok_loop-tokens (read ++ c ∷ []) s)
  ]
]

-- The loop writes nothing behind the buffer.
length-strtok_loop : (read s : Text) → length (strtok_loop read s).1 ≡ length s
unfolding strtok_loop
length-strtok_loop read [] = refl
length-strtok_loop read (c ∷ s) = elim (Bool-cases (c == 0)) [
  | inl z ↦ rw (z, strtok_loop) refl
  | inr z ↦ elim (Bool-cases (c == 58)) [
    | inl e ↦ rw (z, e, strtok_loop) (ap suc (length-strtok_loop [] s))
    | inr e ↦ rw (z, e, strtok_loop) (ap suc (length-strtok_loop (read ++ c ∷ []) s))
  ]
]

drop-none : (n : ℕ) (s : Text) → length s ≡ n → drop n s ≡ []
drop-none n [] e = rw (sym e) refl
drop-none zero (c ∷ s) e = absurd (omega (arith, e))
drop-none (suc n) (c ∷ s) e = drop-none n s (omega (arith, e))

-- strcpy restores the buffer whole.
strcpy-strtok_loop : (env : Text) → strcpy (strtok_loop [] (stored env)).1 env ≡ stored env
strcpy-strtok_loop env =
    let l = length-strtok_loop [] (stored env) ∙ length-append env (0 ∷ []) in
    rw (drop-none (length env + 1) (strtok_loop [] (stored env)).1 l) (append-nil (stored env))

pub passes_lem : (env : Text) → passes env ≡ (tokens [] env, tokens [] env)
unfolding passes
passes_lem env =
    let first = strtok_loop-tokens [] env in
    λ i. (first i, (ap (λ b. (strtok_loop [] b).0) (strcpy-strtok_loop env) ∙ first) i)

abbrev pub NoColon : Text → Type 0
NoColon [] = Unit {0}
NoColon (c ∷ s) = (c ≢ 58) × (c ≢ 0) × NoColon s

-- None is empty and none holds a colon or a null character.
abbrev pub AllTokens : List Text → Type 0
AllTokens [] = Unit {0}
AllTokens (t ∷ ts) = (t ≢ []) × NoColon t × AllTokens ts

-- The strings with a colon after each, and only between them.
abbrev pub joined : List Text → Text
joined [] = []
joined (t ∷ ts) = t ++ 58 ∷ joined ts

abbrev pub separated : Text → List Text → Text
separated t [] = t
separated t (u ∷ ts) = t ++ 58 ∷ separated u ts

token-some : (t : Text) (ts : List Text) → t ≢ [] → token t ts ≡ t ∷ ts
unfolding token
token-some [] ts ne = absurd (ne refl)
token-some (c ∷ s) ts ne = refl

-- Up to the next colon the characters are read into the string.
tokens-read :
    (read t rest : Text)
    → NoColon t
    → tokens read (t ++ 58 ∷ rest) ≡ token (read ++ t) (tokens [] rest)
unfolding tokens
tokens-read read [] rest h = rw append-nil
tokens-read read (c ∷ t) rest h =
    rw (==_ne c 58 h.0, ==_ne c 0 h.1, tokens)
      (tokens-read (read ++ c ∷ []) t rest h.2
        ∙ ap (λ s. token s (tokens [] rest)) (append_assoc read (c ∷ []) t))

tokens-last : (read t : Text) → NoColon t → tokens read t ≡ token (read ++ t) []
unfolding tokens
tokens-last read [] h = rw append-nil
tokens-last read (c ∷ t) h =
    rw (==_ne c 58 h.0, ==_ne c 0 h.1, tokens)
      (tokens-last (read ++ c ∷ []) t h.2 ∙ ap (λ s. token s []) (append_assoc read (c ∷ []) t))

tokens-joined : (ts : List Text) → AllTokens ts → tokens [] (joined ts) ≡ ts
unfolding tokens token
tokens-joined [] h = refl
tokens-joined (t ∷ ts) (ne, colon, h) =
    tokens-read [] t (joined ts) colon ∙ token-some t _ ne ∙ ap (◌∷◌ t) (tokens-joined ts h)

tokens-separated :
    (t : Text) (ts : List Text) → AllTokens (t ∷ ts) → tokens [] (separated t ts) ≡ t ∷ ts
tokens-separated t [] (ne, colon, h) = tokens-last [] t colon ∙ token-some t [] ne
tokens-separated t (u ∷ ts) (ne, colon, h) =
    tokens-read [] t (separated u ts) colon
    ∙ token-some t _ ne
    ∙ ap (◌∷◌ t) (tokens-separated u ts h)

module _ (C : TextLib) where
  pub init_ignored-tokens :
      (mem : IgnoreMemory) (env : Text)
      → lksmith_init_ignored C mem (some env) ≡ (
          if not mem.env_copy
          then (err enomem, [])
          else (if not (mem.array (length (tokens [] env)))
              then (err enomem, [])
              else (if copies mem.copy 0 (tokens [] env)
                  then (ok, C.qsort (tokens [] env))
                  else (err enomem, []))))
  unfolding lksmith_init_ignored init_listed
  init_ignored-tokens mem env = ap (init_listed C mem) (passes_lem env)

  pub copies-total :
      (copy : ℕ → Bool) (i : ℕ) (ts : List Text)
      → ((i : ℕ) → copy i ≡ true)
      → copies copy i ts ≡ true
  unfolding copies
  copies-total copy i [] all = refl
  copies-total copy i (t ∷ ts) all = rw (all i) (copies-total copy (i + 1) ts all)

  -- With memory, strings that are not empty and hold no colon and no null character are read from the
  -- value that has a colon after each, and from the one that has colons only between them: the array
  -- has as many places as the second pass then copies strings into it, these are the strings in order,
  -- and lksmith_init_ignored returns 0 with them as qsort sorts them.
  pub lksmith_init_ignored-separated :
      (mem : IgnoreMemory) (t : Text) (ts : List Text)
      → mem.env_copy ≡ true
      → ((n : ℕ) → mem.array n ≡ true)
      → ((i : ℕ) → mem.copy i ≡ true)
      → AllTokens (t ∷ ts)
      → (passes (joined (t ∷ ts)) ≡ (t ∷ ts, t ∷ ts))
        × (passes (separated t ts) ≡ (t ∷ ts, t ∷ ts))
        × (lksmith_init_ignored C mem (some (joined (t ∷ ts))) ≡ (ok, C.qsort (t ∷ ts)))
        × (lksmith_init_ignored C mem (some (separated t ts)) ≡ (ok, C.qsort (t ∷ ts)))
  lksmith_init_ignored-separated mem t ts copied room copy h =
      let one = tokens-joined (t ∷ ts) h in
      let two = tokens-separated t ts h in
      (
        passes_lem (joined (t ∷ ts)) ∙ ap (λ us. (us, us)) one,
        passes_lem (separated t ts) ∙ ap (λ us. (us, us)) two,
        with_memory (joined (t ∷ ts)) one,
        with_memory (separated t ts) two,
      )
    where
      with_memory :
          (env : Text)
          → tokens [] env ≡ t ∷ ts
          → lksmith_init_ignored C mem (some env) ≡ (ok, C.qsort (t ∷ ts))
      with_memory env e =
          init_ignored-tokens mem env
          ∙ (rw (e, copied, room (length (t ∷ ts)), copies-total mem.copy 0 (t ∷ ts) copy) refl)
